-- ===== src/Net/Socket.antt =====
-- WebSocket::readExact over what Socket::readSome returns.
pub mod Laws
use samryetha_tunnel.Base.{
  ℕ, zero, suc, ◌+◌, ◌-◌, Bool, true, false, Option, none, some, List, [], ◌∷◌, ◌++◌, length, take,
  drop, leb, if◌then◌else◌,
}
use samryetha_tunnel.Base.Text.{Bytes}

-- What the socket does next: some bytes arrive (at least one), or the read times out, at a moment when
-- the stop flag is set or not. The list ends where the connection is closed or fails.
pub data Event : Type 0 where
  arrive : Bytes → Event
  timeout : Bool → Event

abbrev pub prepend : Bytes → Option (Bytes × List Event) → Option (Bytes × List Event)
prepend got none = none
prepend got (some (more, es)) = some (got ++ more, es)

-- `readExact(buf, n)`: the bytes and what the socket does afterwards; `none` is `false`. Of a chunk that
-- holds more than is wanted, the rest is there for the next read.
unfoldable pub read_exact : ℕ → List Event → Option (Bytes × List Event)
read_exact zero es = some ([], es)
read_exact (suc n) [] = none
read_exact (suc n) (timeout stop ∷ es) =
    let again = read_exact (suc n) es in if stop then none else again
read_exact (suc n) (arrive chunk ∷ es) =
    let more = read_exact (suc n - length chunk) es in
    if leb (suc n) (length chunk)
    then some (take (suc n) chunk, arrive (drop (suc n) chunk) ∷ es)
    else prepend chunk more
