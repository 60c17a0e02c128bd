-- ===== src/Client/Streams.antt =====
-- The control loop `runOnce`, the threads of `handleTcpStream`, and the streams that they share, as steps
-- of one machine. A step is what a thread does under one lock, or between two calls that may block.
-- Streams are objects: the table `g_streams` and a thread may hold one that the other has given up.
-- The machine is that of one connection: `g_streams` and the jobs hold what this connection put there.
pub mod Below
pub mod Growth
pub mod Numbers
pub mod Order
pub mod Routes
pub mod Steps
pub mod Table
pub mod Teardown
use samryetha_tunnel.Base.{
  ℕ, zero, suc, ◌+◌, Bool, true, false, not, ◌&&◌, Option, none, some, List, [], ◌∷◌, ◌++◌,
  if◌then◌else◌,
}
use samryetha_tunnel.Base.Dict.{Dict, lookup, insert, erase}
use samryetha_tunnel.Base.Order.{nat_order}
use samryetha_tunnel.Base.Text.{Bytes, codes, bytes_eq, is_empty}
use samryetha_tunnel.Client.Http.Forward.{Answer, chunk, stop, abort, Outside, handle_http_stream}
use samryetha_tunnel.Client.Pool.{LocalPool}
use samryetha_tunnel.Codec.Types.{TunnelCfg, OpenStream, InMsg}
use samryetha_tunnel.Wire.Result.{Result, ok, err}

-- Where a thread of `handleTcpStream` stands. `idle`: the stream has no such thread.
pub data Pc : Type 0 where
  idle connecting testing reading ending erasing done : Pc

-- struct Stream; `written` is what `sock.writeAll` was given, and `shut` that `sock` was shut down.
pub record Stream : Type 0 where
  pub id : ℕ
  pub proto : Bytes
  pub tunnel_id : Bytes
  pub local_addr : Bytes
  pub connected : Bool
  pub closed : Bool
  pub pending : Bytes
  pub written : Bytes
  pub shut : Bool
  pub pc : Pc

-- What the client sends: the registration, pongs, and what is about a stream.
pub data Out : Type 0 where
  register : Bytes → List TunnelCfg → Out
  pong : Out
  answer : Answer → Out

-- `g_streams`, the objects, the jobs of the worker pool, for the object of each job at work its stream and
-- what `handleHttpStream` still sends, and what was sent while the session lived.
pub record State : Type 0 where
  pub streams : Dict ℕ ℕ
  pub objects : Dict ℕ Stream
  pub next : ℕ
  pub jobs : List (ℕ × OpenStream)
  pub workers : Dict ℕ (ℕ × List Answer)
  pub alive : Bool
  pub sent : List Out

unfoldable pub update : ℕ → (Stream → Stream) → State → State
update o f s = elim (lookup o s.objects) [
  | none ↦ s
  | some st ↦ record s { objects = insert o (f st) s.objects }
]

-- `Session::send`: nothing goes out once `alive` is false.
unfoldable pub send : Out → State → State
send m s = if s.alive then record s { sent = s.sent ++ m ∷ [] } else s

-- The last tunnel of that name decides.
unfoldable pub local_of : Bytes → Bytes → List TunnelCfg → Bytes
local_of name found [] = found
local_of name found (t ∷ ts) = local_of name (if bytes_eq t.id name then t.local else found) ts

unfoldable pub new_stream : OpenStream → Bytes → Stream
new_stream os addr = record {
  id = os.stream_id;
  proto = os.proto;
  tunnel_id = os.tunnel_id;
  local_addr = addr;
  connected = false;
  closed = false;
  pending = [];
  written = [];
  shut = false;
  pc = if bytes_eq os.proto (codes "tcp") then connecting else idle;
}

-- The message open_stream: a tcp stream gets a thread, any other a job.
unfoldable pub on_open : List TunnelCfg → OpenStream → State → State
unfolding new_stream send local_of
on_open tunnels os s =
    let addr = local_of os.tunnel_id [] tunnels in
    let o = s.next in
    let entered : State = record s {
      streams = insert os.stream_id o s.streams;
      objects = insert o (new_stream os addr) s.objects;
      next = suc o;
    } in
    if is_empty addr
    then send (answer (abort os.stream_id (codes "unknown tunnel"))) s
    else if bytes_eq os.proto (codes "tcp")
    then entered
    else record entered { jobs = entered.jobs ++ (o, os) ∷ [] }

-- Bytes from the server, under the stream's lock.
unfoldable pub take_chunk : Bytes → Stream → Stream
take_chunk bytes st =
    if st.connected
    then record st { written = st.written ++ bytes }
    else record st { pending = st.pending ++ bytes }

unfoldable pub on_chunk : ℕ → Bytes → State → State
unfolding update take_chunk
on_chunk sid bytes s = elim (lookup sid s.streams) [
  | none ↦ s
  | some o ↦ update o (take_chunk bytes) s
]

unfoldable pub close_stream : Stream → Stream
close_stream st = record st { closed = true; shut = true }

unfoldable pub on_close : ℕ → State → State
unfolding update close_stream
on_close sid s = elim (lookup sid s.streams) [
  | none ↦ record s { streams = erase sid s.streams }
  | some o ↦ update o close_stream (record s { streams = erase sid s.streams })
]

-- What a blocking call of a tcp thread returns: the connection or a reason, bytes and whether the
-- chunk with them could be sent, the end of the local stream. `tick` is a step without such a call.
pub data Input : Type 0 where
  joined : Input
  refused : Bytes → Input
  bytes : Bytes → Bool → Input
  eof tick : Input

unfoldable pub at_pc : Pc → Stream → Stream
at_pc pc st = record st { pc = pc }

-- `connected = true`, and the pending bytes go out, under one lock.
unfoldable pub flush : Stream → Stream
flush st = record st {
  connected = true;
  written = st.written ++ st.pending;
  pending = [];
  pc = testing;
}

-- One step of the thread of object `o`, whose stream is `st`.
unfoldable pub tcp_step : Pc → ℕ → Stream → Input → State → State
unfolding flush update send
tcp_step connecting o st joined s = update o flush s
tcp_step connecting o st (refused reason) s =
    update o (at_pc done) (send (answer (abort st.id reason)) s)
tcp_step testing o st tick s = update o (at_pc (if st.closed then ending else reading)) s
tcp_step reading o st (bytes b written) s =
    if s.alive && written
    then update o (at_pc testing) (send (answer (chunk st.id b)) s)
    else update o (at_pc ending) s
tcp_step reading o st eof s = update o (at_pc ending) s
tcp_step ending o st tick s =
    update o (at_pc erasing) (if st.closed then s else send (answer (stop st.id)) s)
tcp_step erasing o st tick s = update o (at_pc done) (record s { streams = erase st.id s.streams })
tcp_step pc o st input s = s

unfoldable pub on_tcp : ℕ → Input → State → State
unfolding tcp_step
on_tcp o input s = elim (lookup o s.objects) [ none ↦ s | some st ↦ tcp_step st.pc o st input s ]

-- A worker takes the oldest job. What `handleHttpStream` will send is fixed by what it meets outside and the
-- connections kept, as it does not read what `send` returns.
unfoldable pub taken : Outside → LocalPool → List (ℕ × OpenStream) → State → State
unfolding handle_http_stream
taken out pool [] s = s
taken out pool ((o, os) ∷ js) s = elim (lookup o s.objects) [
  | none ↦ record s { jobs = js }
  | some st ↦ record s {
    jobs = js;
    workers = insert o (st.id, (handle_http_stream st.id st.local_addr os out pool).0) s.workers;
  }
]

unfoldable pub on_take : Outside → LocalPool → State → State
unfolding taken
on_take out pool s = taken out pool s.jobs s

unfoldable pub erase_stream : ℕ → State → State
erase_stream id s = record s { streams = erase id s.streams }

-- The job of object `o` sends what is next, or erases its stream when it is through.
unfoldable pub worked : ℕ → Option (ℕ × List Answer) → State → State
unfolding erase_stream send
worked o none s = s
worked o (some (id, [])) s = erase_stream id (record s { workers = erase o s.workers })
worked o (some (id, a ∷ rest)) s =
    send (answer a) (record s { workers = insert o (id, rest) s.workers })

unfoldable pub on_work : ℕ → State → State
unfolding worked
on_work o s = worked o (lookup o s.workers) s

unfoldable pub close_all : List (ℕ × ℕ) → State → State
unfolding update close_stream
close_all [] s = s
close_all ((sid, o) ∷ l) s = close_all l (update o close_stream s)

-- The end of `runOnce`.
unfoldable pub teardown : State → State
unfolding close_all
teardown s = let t = close_all s.streams (record s { alive = false }) in record t { streams = [] }

-- `begin` is the registration before the loop; then come the messages, of which `noted` is one that is only
-- logged or ignored, the steps of the threads and of the jobs, and the end of the loop.
pub data Step : Type 0 where
  begin : Bytes → Step
  ping noted : Step
  open_stream : OpenStream → Step
  chunk_in : ℕ → Bytes → Step
  close_in : ℕ → Step
  tcp : ℕ → Input → Step
  take_job : Outside → LocalPool → Step
  work : ℕ → Step
  down : Step

-- The branch of `runOnce` that a message takes, as `decServer` decodes it.
unfoldable pub step_of : Result InMsg → Step
step_of (err e) = noted
step_of (ok m) =
    if bytes_eq m.type (codes "ping")
    then ping
    else if bytes_eq m.type (codes "register_ack")
    then noted
    else if bytes_eq m.type (codes "open_stream")
    then open_stream m.os
    else if bytes_eq m.type (codes "chunk")
    then chunk_in m.stream_id m.payload
    else if bytes_eq m.type (codes "close_stream")
    then close_in m.stream_id
    else noted

unfoldable pub step : List TunnelCfg → Step → State → State
unfolding send
step tunnels (begin client_id) s = send (register client_id tunnels) s
step tunnels ping s = send pong s
step tunnels noted s = s
step tunnels (open_stream os) s = on_open tunnels os s
step tunnels (chunk_in sid b) s = on_chunk sid b s
step tunnels (close_in sid) s = on_close sid s
step tunnels (tcp o input) s = on_tcp o input s
step tunnels (take_job out pool) s = on_take out pool s
step tunnels (work o) s = on_work o s
step tunnels down s = teardown s

unfoldable pub run : List TunnelCfg → List Step → State → State
unfolding step
run tunnels [] s = s
run tunnels (e ∷ es) s = run tunnels es (step tunnels e s)
