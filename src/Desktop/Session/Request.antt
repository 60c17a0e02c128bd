-- ===== src/Desktop/Session/Request.antt =====
-- A forwarder keeps its request.
use samryetha_tunnel.Base.{◌≡◌, refl, Bool, Option, none, some, arith}
use samryetha_tunnel.Base.Text.{Bytes}
use samryetha_tunnel.Desktop.Qt.{Qt}
use samryetha_tunnel.Desktop.Forwarder.{
  Reply, Forwarder, Event, finish_once, then_finish, on_meta_data, on_reply_read, on_reply_finished,
  start_tcp, start_http, start, on_connected, on_socket_read, on_socket_error, write_from_remote,
  close_reply, close_from_remote, on_reply, on_socket, fire,
}

finish_once-req : (f : Forwarder) → (finish_once f).0.req ≡ f.req
unfolding finish_once
finish_once-req f = ground arith

on_reply_finished-req : (r : Reply) (f : Forwarder) → (on_reply_finished r f).0.req ≡ f.req
unfolding on_reply_finished then_finish finish_once
on_reply_finished-req r f = ground arith

on_reply-req : (e : Event) (f : Forwarder) → (on_reply e f).0.req ≡ f.req
unfolding on_reply on_meta_data on_reply_read
on_reply-req (Event.meta_data_changed r) f = ground arith
on_reply-req (Event.reply_ready_read r) f = refl
on_reply-req (Event.reply_finished r) f = on_reply_finished-req r f
on_reply-req Event.connected f = refl
on_reply-req Event.disconnected f = refl
on_reply-req (Event.ready_read b) f = refl
on_reply-req (Event.error_occurred b t) f = refl

on_socket-req : (e : Event) (f : Forwarder) → (on_socket e f).0.req ≡ f.req
unfolding on_socket on_connected on_socket_read on_socket_error then_finish
on_socket-req (Event.meta_data_changed r) f = refl
on_socket-req (Event.reply_ready_read r) f = refl
on_socket-req (Event.reply_finished r) f = refl
on_socket-req Event.connected f = refl
on_socket-req Event.disconnected f = finish_once-req f
on_socket-req (Event.ready_read b) f = refl
on_socket-req (Event.error_occurred b t) f = finish_once-req f

pub fire-req : (e : Event) (f : Forwarder) → (fire e f).0.req ≡ f.req
unfolding fire
fire-req e f = ground (arith, on_socket-req e f, on_reply-req e f)

pub write_from_remote-req :
    (b : Bool) (bytes : Bytes) (f : Forwarder) → (write_from_remote b bytes f).req ≡ f.req
unfolding write_from_remote
write_from_remote-req b bytes f = ground arith

close_reply-req : (r : Option Reply) (f : Forwarder) → (close_reply r f).0.req ≡ f.req
unfolding close_reply then_finish
close_reply-req none f = finish_once-req f
close_reply-req (some r) f =
    rw (finish_once-req (on_reply_finished r f).0) (on_reply_finished-req r f)

pub close_from_remote-req :
    (r : Option Reply) (f : Forwarder) → (close_from_remote r f).0.req ≡ f.req
unfolding close_from_remote
close_from_remote-req r f = ground (arith, close_reply-req r f)

start_tcp-req : (q : Qt) (f : Forwarder) → (start_tcp q f).0.req ≡ f.req
unfolding start_tcp
start_tcp-req q f = ground arith

pub start-req : (q : Qt) (f : Forwarder) → (start q f).0.req ≡ f.req
unfolding start start_http
start-req q f = ground (arith, start_tcp-req q f)
