-- ===== src/Desktop/Forwarder/Writes.antt =====
-- The server's bytes on their way to a local TCP service.
use samryetha_tunnel.Base.{
  ℕ, ◌≡◌, refl, sym, ap, ◌∙◌, Bool, true, false, some, List, [], ◌∷◌, ◌++◌, append-nil,
  append_assoc, arith,
}
use samryetha_tunnel.Base.Text.{Bytes}
use samryetha_tunnel.Desktop.Forwarder.{
  Forwarder, Event, fire, on_socket, on_connected, write_from_remote,
}

-- Chunks of the server, one after the other.
unfoldable pub writes : Bool → List Bytes → Forwarder → Forwarder
unfolding write_from_remote
writes connected [] f = f
writes connected (b ∷ bs) f = writes connected bs (write_from_remote connected b f)

pub join : List Bytes → Bytes
join [] = []
join (b ∷ bs) = b ++ join bs

join-append : (a b : List Bytes) → join (a ++ b) ≡ join a ++ join b
unfolding join
join-append [] b = refl
join-append (x ∷ a) b = ap (λ t. x ++ t) (join-append a b) ∙ sym (append_assoc x (join a) (join b))

-- A forwarder with a socket, what waits for the connection, and what was written.
record Tcp (f : Forwarder) (pending written : Bytes) : Type 0 where
  address : Bytes × ℕ
  has_socket : f.socket ≡ some address
  waits : f.pending_remote ≡ pending
  wrote : f.written ≡ written

early_step :
    (f : Forwarder) (b p w : Bytes) → Tcp f p w → Tcp (write_from_remote false b f) (p ++ b) w
unfolding write_from_remote
early_step f b p w t = record {
  address = t.address;
  has_socket = ground (arith, t.has_socket);
  waits = ground (arith, t.has_socket, t.waits);
  wrote = ground (arith, t.has_socket, t.wrote);
}

late_step :
    (f : Forwarder) (b w : Bytes) → Tcp f [] w → Tcp (write_from_remote true b f) [] (w ++ b)
unfolding write_from_remote
late_step f b w t = record {
  address = t.address;
  has_socket = ground (arith, t.has_socket);
  waits = ground (arith, t.has_socket, t.waits);
  wrote = ground (arith, t.has_socket, t.wrote);
}

early :
    (bs : List Bytes) (f : Forwarder) (p w : Bytes)
    → Tcp f p w
    → Tcp (writes false bs f) (p ++ join bs) w
unfolding writes join
early [] f p w t = rw (append-nil p) t
early (b ∷ bs) f p w t =
    rw⁻¹ (append_assoc p b (join bs))
      (early bs (write_from_remote false b f) (p ++ b) w (early_step f b p w t))

late :
    (bs : List Bytes) (f : Forwarder) (w : Bytes)
    → Tcp f [] w
    → Tcp (writes true bs f) [] (w ++ join bs)
unfolding writes join
late [] f w t = rw (append-nil w) t
late (b ∷ bs) f w t =
    rw⁻¹ (append_assoc w b (join bs))
      (late bs (write_from_remote true b f) (w ++ b) (late_step f b w t))

connect_step :
    (f : Forwarder) (p w : Bytes) → Tcp f p w → Tcp (fire Event.connected f).0 [] (w ++ p)
unfolding fire on_socket on_connected
connect_step f p w t = record {
  address = t.address;
  has_socket = ground (arith, t.has_socket);
  waits = ground (arith, t.has_socket);
  wrote = ground (arith, t.has_socket, t.waits, t.wrote);
}

-- The local service is given the server's bytes whole and in their order: those that come before its socket
-- is connected, and those that come behind, if nothing was written before and nothing waited.
pub writes_in_order :
    (f : Forwarder) (address : Bytes × ℕ) (before behind : List Bytes)
    → f.socket ≡ some address
    → f.pending_remote ≡ []
    → f.written ≡ []
    → ((writes true behind (fire Event.connected (writes false before f)).0).written
        ≡ join (before ++ behind))
      × ((writes true behind (fire Event.connected (writes false before f)).0).pending_remote ≡ [])
writes_in_order f address before behind s p w =
    let start : Tcp f [] [] = record { address = address; has_socket = s; waits = p; wrote = w } in
    let waiting = early before f [] [] start in
    let up = connect_step (writes false before f) (join before) [] waiting in
    let done = late behind (fire Event.connected (writes false before f)).0 (join before) up in
    (done.wrote ∙ sym (join-append before behind), done.waits)
