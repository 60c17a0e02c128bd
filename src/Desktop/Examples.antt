-- ===== src/Desktop/Examples.antt =====
-- The theorems on the Qt client at work, with JSON objects that are their own text.
use samryetha_tunnel.Base.{
  ℕ, ◌+◌, ◌^◌, ◌≡◌, ◌≢◌, refl, ap, Bool, true, false, Option, none, some, List, [], ◌∷◌, min, arith,
}
use samryetha_tunnel.Base.Dict.{Dict}
use samryetha_tunnel.Base.Int.{ℤ, pos, show_ℤ}
use samryetha_tunnel.Base.Order.{bytes_less, bytes_irrefl, bytes_connex}
use samryetha_tunnel.Base.Text.{Bytes, codes}
use samryetha_tunnel.Json.Value.{
  J, Items, Fields, nul, boolean, number, string, array, object, nil, item, end, member, put, find,
}
use samryetha_tunnel.Desktop.Api
use samryetha_tunnel.Desktop.Api.Errors.{Means, on_finished-Means}
use samryetha_tunnel.Desktop.Qt.{Qt, QtLaws}
use samryetha_tunnel.Desktop.Protocol.{TunnelDef, Frame, no_stream, parse_server_message}
use samryetha_tunnel.Desktop.Forwarder.{Reply, Forwarder, Event, new_forwarder, fire}
use samryetha_tunnel.Desktop.Forwarder.Writes.{writes, join, writes_in_order}
use samryetha_tunnel.Desktop.Config.{ClientConfig, load, save}
use samryetha_tunnel.Desktop.Config.RoundTrip.{load-save}
use samryetha_tunnel.Desktop.Client.{Client, new_client, on_ws_disconnected}
use samryetha_tunnel.Desktop.Session.{Readings, Step, run}
use samryetha_tunnel.Desktop.Session.Good.{quiet}
use samryetha_tunnel.Desktop.Session.Order.{opens, distinct, run-quiet}
use samryetha_tunnel.Desktop.Session.Pending.{held}
use samryetha_tunnel.Desktop.Session.Ledger.{calls}
use samryetha_tunnel.Desktop.Session.Callbacks.{count, asked, run-callbacks}
use samryetha_tunnel.Desktop.Session.Reconnect.{retries, opened, retries-opened}

find-put_self : (k : Bytes) (v : J ℤ) (m : Fields ℤ) → find k (put k v m) ≡ some v
unfolding find put
find-put_self k v end = ground (arith, bytes_irrefl k)
find-put_self k v (member j w m) = ground (arith, bytes_irrefl k, find-put_self k v m)

find-put_ne : (k j : Bytes) (v : J ℤ) (m : Fields ℤ) → k ≢ j → find j (put k v m) ≡ find j m
unfolding find put
find-put_ne k j v end ne = ground (arith, bytes_connex k j)
find-put_ne k j v (member i w m) ne =
    ground (arith, bytes_connex k j, bytes_connex i j, bytes_connex i k, find-put_ne k j v m ne)

abbrev number_or : ℕ → J ℤ → ℕ
number_or d (number (pos n)) = n
number_or d other = d

abbrev int_or : ℤ → J ℤ → ℤ
int_or d (number n) = n
int_or d other = d

abbrev fields_or : J ℤ → Fields ℤ
fields_or (object m) = m
fields_or other = end

abbrev to_list : Items ℤ → List (J ℤ)
to_list nil = []
to_list (item j l) = j ∷ to_list l

abbrev of_list : List (J ℤ) → Items ℤ
of_list [] = nil
of_list (j ∷ l) = item j (of_list l)

to_list-of_list : (l : List (J ℤ)) → to_list (of_list l) ≡ l
to_list-of_list [] = refl
to_list-of_list (j ∷ l) = ap (λ x. j ∷ x) (to_list-of_list l)

abbrev list_or : J ℤ → List (J ℤ)
list_or (array l) = to_list l
list_or other = []

abbrev true_or : J ℤ → Bool
true_or (boolean b) = b
true_or other = false

abbrev is_nul : J ℤ → Bool
is_nul nul = true
is_nul other = false

abbrev text_or : Bytes → J ℤ → Bytes
text_or d (string s) = s
text_or d other = d

abbrev found : Option (J ℤ) → J ℤ
found none = nul
found (some v) = v

abbrev is_found : Option (J ℤ) → Bool
is_found none = false
is_found (some v) = true

abbrev pairs : Fields ℤ → Dict Bytes (J ℤ)
pairs end = []
pairs (member k v m) = (k, v) ∷ pairs m

abbrev no_fields : Fields ℤ → Bool
no_fields end = true
no_fields (member k v m) = false

abbrev small_qt : Qt
small_qt = record {
  Value = J ℤ;
  Object = Fields ℤ;
  Document = Fields ℤ;
  of_text = string;
  of_uint = λ n. number (pos n);
  of_int = number;
  of_object = object;
  of_bool = boolean;
  of_array = λ l. array (of_list l);
  to_text = text_or [];
  to_bool = true_or;
  to_uint = number_or 0;
  to_int = int_or (pos 0);
  to_int_or = int_or;
  to_object = fields_or;
  to_array = list_or;
  is_null = is_nul;
  to_text_or = text_or;
  empty = end;
  put = put;
  value = λ o k. found (find k o);
  contains = λ o k. is_found (find k o);
  is_empty_object = no_fields;
  members = pairs;
  to_json = λ o. o;
  from_json = some;
  to_json_indented = λ o. o;
  bytes_of = λ o. codes "{}";
  object_of = λ s. none;
  to_base64 = λ s. s;
  from_base64 = λ s. s;
  to_ushort = λ s. 80;
  to_upper = λ s. s;
  show_number = show_ℤ;
  trimmed = λ s. s;
  url_scheme = λ s. codes "ws";
  url_host = λ s. codes "h";
  url_path = λ s. codes "/tunnel";
  url_port = λ s. pos 0;
}

small_laws : QtLaws small_qt
unfolding find
small_laws = record {
  to_text-of_text = λ s. refl;
  to_uint-of_uint = λ n h. refl;
  value-put_self = λ k v o. ap found (find-put_self k v o);
  value-put_ne = λ k j v o ne. ap found (find-put_ne k j v o ne);
  from_json-to_json = λ o. refl;
  from_base64-to_base64 = λ s. refl;
  from_json-to_json_indented = λ o. refl;
  to_bool-of_bool = λ b. refl;
  to_array-of_array = to_list-of_list;
  to_object-of_object = λ o. refl;
  to_text_or-of_text = λ d s. refl;
  contains-put_self = λ k v o. ap is_found (find-put_self k v o);
  contains-put_ne = λ k j v o ne. ap is_found (find-put_ne k j v o ne);
  to_text-value_empty = λ k. refl;
}

-- Two streams: a request of which the local service fails, and a connection that it closes.
abbrev web : TunnelDef
web = record {
  tunnel_id = codes "web";
  proto = [];
  subdomain = [];
  path_prefix = [];
  local_addr = codes "127.0.0.1:80";
}

abbrev home : ClientConfig
home = record {
  server_url = codes "ws://h/tunnel";
  api_token = codes "t";
  client_id = codes "c";
  base_domain = codes "h";
  api_base = [];
  auto_reconnect = true;
  tunnels = web ∷ [];
}

abbrev opening : ℕ → Bytes → Fields ℤ
opening id proto = put (codes "type") (string (codes "open_stream")) (
    put (codes "stream_id") (number (pos id))
      (put (codes "tunnel_id") (string (codes "web")) (put (codes "proto") (string proto) end)))

abbrev quick : Readings
quick = record { socket_connected = true; aborted = none; elapsed = 1 }

abbrev refused : Reply
refused = record {
  status = none;
  raw_headers = [];
  has_error = true;
  error_string = codes "refused";
  available = [];
}

abbrev events : List (Step small_qt)
events =
    Step.configure home
    ∷ Step.run_client
    ∷ Step.ws_connected
    ∷ Step.text_received quick (opening 1 (codes "http"))
    ∷ Step.text_received quick (opening 2 (codes "tcp"))
    ∷ Step.forwarder 0 1 (Event.reply_finished refused)
    ∷ Step.forwarder 1 1 (Event.ready_read (codes "x"))
    ∷ Step.forwarder 1 1 Event.disconnected
    ∷ Step.forwarder 1 1 (Event.ready_read (codes "y"))
    ∷ []

run-quiet_example : quiet 2 (run small_qt events (new_client home)).sent ≡ true
unfolding opens parse_server_message put distinct find bytes_less
run-quiet_example = run-quiet small_qt home events 2 refl

-- What those events send, the newest first.
events_test :
    (run small_qt events (new_client home)).sent
    ≡ Frame.end 2
      ∷ Frame.chunk 2 (codes "x")
      ∷ Frame.abort 1 (codes "refused")
      ∷ Frame.register (codes "c") (web ∷ [])
      ∷ []
unfolding run new_client put find bytes_less
events_test = refl

abbrev started : Client
started = record (new_client home) { running = true }

retries-opened_example :
    (opened (retries 3 started).out ≡ 3 + opened started.out)
    × ((on_ws_disconnected (retries 3 started)).timer ≡ some (min (2 ^ 3) 30))
unfolding new_client
retries-opened_example = retries-opened started 3 refl refl refl

abbrev ssh : Forwarder
ssh = record (new_forwarder (record no_stream { proto = codes "tcp" }) (codes "127.0.0.1:22")) {
  socket = some (codes "127.0.0.1", 22);
}

writes_in_order_example :
    ((writes true
        (codes "c" ∷ [])
        (fire Event.connected (writes false (codes "a" ∷ codes "b" ∷ []) ssh)).0).written
      ≡ join (codes "a" ∷ codes "b" ∷ codes "c" ∷ []))
    × ((writes true
          (codes "c" ∷ [])
          (fire Event.connected (writes false (codes "a" ∷ codes "b" ∷ []) ssh)).0).pending_remote
        ≡ [])
unfolding new_forwarder
writes_in_order_example =
    writes_in_order ssh (codes "127.0.0.1", 22) (codes "a" ∷ codes "b" ∷ []) (codes "c" ∷ []) refl
      refl refl

-- Two requests, of which one is answered.
abbrev answer : Fields ℤ
answer =
    put (codes "type") (string (codes "mgmt_resp"))
      (put (codes "req_id") (number (pos 1)) (put (codes "status") (number (pos 200)) end))

abbrev requests : List (Step small_qt)
requests =
    Step.configure home
    ∷ Step.run_client
    ∷ Step.ws_connected
    ∷ Step.request (codes "GET") (codes "/a") end 9
    ∷ Step.request (codes "GET") (codes "/b") end 9
    ∷ Step.text_received quick answer
    ∷ Step.text_received quick answer
    ∷ Step.ws_disconnected
    ∷ []

run-callbacks_example :
    count 9 (calls (run small_qt requests (new_client home)).out)
      + held 9 (run small_qt requests (new_client home)).mgmt_pending
    ≡ asked 9 requests
run-callbacks_example = run-callbacks small_qt home requests 9 (ground arith)

-- The second request still waits after its channel is lost.
requests_test : (run small_qt requests (new_client home)).mgmt_pending ≡ (2, 9) ∷ []
unfolding run new_client put find bytes_less
requests_test = refl

load-save_example :
    ((save small_qt true home none).0 ≡ true)
    × (load small_qt (save small_qt true home none).1 ≡ home)
    × ((save small_qt false home none).0 ≡ false)
    × (load small_qt (save small_qt false home none).1 ≡ load small_qt none)
load-save_example = load-save small_qt small_laws home none

abbrev waiting : Api.Reply
waiting = record { bytes = codes "{}"; status = pos 200; error_string = []; has_error = false }

on_finished-Means_example :
    Means small_qt
      (Api.Call.device_poll (codes "d"))
      waiting
      (Api.on_finished small_qt (Api.Call.device_poll (codes "d")) waiting)
on_finished-Means_example = on_finished-Means small_qt (Api.Call.device_poll (codes "d")) waiting
