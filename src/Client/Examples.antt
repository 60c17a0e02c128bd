-- ===== src/Client/Examples.antt =====
-- The theorems about the client at work on small inputs.
use samryetha_tunnel.Base.{
  ℕ, ◌+◌, suc, ◌*◌, ◌-◌, ◌^◌, ◌≡◌, ◌≤◌, ◌⊎◌, ◌==◌, inl, refl, min, true, false, none, some, List,
  [], ◌∷◌, ◌++◌, All, length, arith,
}
use samryetha_tunnel.Base.Dict.{lookup, insert, erase}
use samryetha_tunnel.Base.Int.{atoi, pos, is_space}
use samryetha_tunnel.Base.Order.{nat_order}
use samryetha_tunnel.Base.Text.{Bytes, codes, bytes_eq, is_empty}
use samryetha_tunnel.Codec.Types.{TunnelCfg, OpenStream, no_stream, InMsg, blank}
use samryetha_tunnel.Wire.Result.{Result, ok, err, truncated}
use samryetha_tunnel.Client.Http.Chunked.{Chunk, encode_chunks, bodies, read_chunks-encode_chunks}
use samryetha_tunnel.Client.Http.Head.{skip_spaces}
use samryetha_tunnel.Client.Args.{parse_args, no_args}
use samryetha_tunnel.Client.Args.Usable.{Accepts, parse_args-Accepts}
use samryetha_tunnel.Client.Mgmt.{await_reply}
use samryetha_tunnel.Client.Mgmt.Awaited.{IsExit, pings, await_reply-append}
use samryetha_tunnel.Client.Mgmt.Awaited
use samryetha_tunnel.Client.Options.{default_cfg, parse_tunnel_spec, split_addr}
use samryetha_tunnel.Client.Options.Spec.{
  IsPlain, spec_text, parse_tunnel_spec-spec_text, split_addr-append,
}
use samryetha_tunnel.Client.Groups.{groups_of, backoff_after}
use samryetha_tunnel.Client.Groups.Keys.{HasKeys, size, groups_of-IsUniform}
use samryetha_tunnel.Client.Groups.Backoff.{failures, backoff_after-bounds, backoff_after-failures}
use samryetha_tunnel.Client.Streams.{
  Stream, State, Step, step, step_of, begin, send, open_stream, chunk_in, close_in, tcp, ping,
  take_job, work, joined, run, on_open, on_chunk, on_close, on_tcp, tcp_step, flush, update,
  take_chunk, local_of, teardown,
}
use samryetha_tunnel.Client.Streams.Order.{chunks_for, delivered_in_order}
use samryetha_tunnel.Client.Streams.Routes.{chunk_of, ends}
use samryetha_tunnel.Client.Streams.Table.{touch}
use samryetha_tunnel.Client.Streams.Teardown.{on_chunk-on_close, teardown-Quiet}
use samryetha_tunnel.Client.Pool.{
  idle_span, IdleConn, conns, take_idle, acquire, release, Workers, Event, submit, stop, wake,
  run_events,
}
use samryetha_tunnel.Client.Pool.Reuse.{
  IsOld, IsBounded, acquired, released, purged, use_pool, take_idle_lem, use_pool-IsBounded,
  acquire-release,
}
use samryetha_tunnel.Client.Pool.Jobs.{submitted, run_events-begun}
use samryetha_tunnel.Client.Http.Input.{Input, calls}
use samryetha_tunnel.Client.Http.Body.{read_length, chunk_size, read_chunks}
use samryetha_tunnel.Client.Http.Length.{join, read_length_lem}
use samryetha_tunnel.Client.Http.Forward.{chunk, stop, Conn, Outside, handle_http_stream}
use samryetha_tunnel.Client.Http.Answer.{IsAnswer, handle_http_stream-IsAnswer}

-- A tunnel and its options.
abbrev a_tunnel : TunnelCfg
a_tunnel = record {
  id = codes "web";
  proto = codes "tcp";
  sub = [];
  path = codes "/a=b";
  local = codes "h:80";
  conn = [];
}

a_tunnel-IsPlain : IsPlain a_tunnel
unfolding is_empty
a_tunnel-IsPlain = record {
  id = ground arith;
  proto = ground arith;
  sub = tt;
  path = ground arith;
  local = ground arith;
  conn = tt;
  named = refl;
  placed = refl;
}

parse_tunnel_spec-spec_text_example :
    parse_tunnel_spec (spec_text a_tunnel) default_cfg ≡ (true, a_tunnel)
parse_tunnel_spec-spec_text_example =
    parse_tunnel_spec-spec_text a_tunnel default_cfg a_tunnel-IsPlain

split_addr-append_example :
    split_addr (codes "::1" ++ b':' ∷ codes "8080") ≡ (codes "::1", atoi (codes "8080"))
split_addr-append_example = split_addr-append (codes "::1") (codes "8080") (ground arith)

groups_of-IsUniform_example :
    HasKeys true (groups_of true (a_tunnel ∷ default_cfg ∷ []))
    × (size (groups_of true (a_tunnel ∷ default_cfg ∷ [])) ≡ 2)
groups_of-IsUniform_example = groups_of-IsUniform true (a_tunnel ∷ default_cfg ∷ [])

backoff_after-bounds_example :
    (1 ≤ backoff_after (false ∷ true ∷ []) 1) × (backoff_after (false ∷ true ∷ []) 1 ≤ 30)
backoff_after-bounds_example =
    backoff_after-bounds (false ∷ true ∷ []) 1 (omega arith) (omega arith)

backoff_after-failures_example : backoff_after (failures 6) 1 ≡ min (1 * 2 ^ 6) 30
backoff_after-failures_example = backoff_after-failures 6 1 (omega arith)

-- A stream whose first chunk comes before the connection to the local service, the second after it.
abbrev at_rest : State
at_rest = record {
  streams = [];
  objects = [];
  next = 0;
  jobs = [];
  workers = [];
  alive = true;
  sent = [];
}

abbrev a_stream : OpenStream
a_stream = record no_stream { stream_id = 5; tunnel_id = codes "web"; proto = codes "tcp" }

-- The chunk behind the close is not for the stream.
abbrev some_steps : List Step
some_steps =
    step_of (ok (record blank { type = codes "chunk"; stream_id = 5; payload = 1 ∷ 2 ∷ [] }))
    ∷ tcp 0 joined
    ∷ ping
    ∷ chunk_in 5 (3 ∷ [])
    ∷ close_in 5
    ∷ chunk_in 5 (4 ∷ [])
    ∷ []

delivered_in_order_example :
    (st : Stream) × (lookup 0
        (run
          (a_tunnel ∷ [])
          (open_stream a_stream ∷ some_steps)
          (run (a_tunnel ∷ []) (begin (codes "c") ∷ []) at_rest)).objects
      ≡ some st)
    × (st.written ++ st.pending ≡ 1 ∷ 2 ∷ 3 ∷ [])
    × ((st.connected ≡ false) ⊎ (st.pending ≡ []))
unfolding local_of is_empty bytes_eq lookup chunks_for chunk_of ends touch step_of step on_open
    on_chunk update on_tcp on_close flush tcp_step insert erase take_chunk run send
delivered_in_order_example =
    delivered_in_order (a_tunnel ∷ []) (begin (codes "c") ∷ []) some_steps a_stream at_rest refl
      refl

on_chunk-on_close_example : on_chunk 5 (1 ∷ []) (on_close 5 at_rest) ≡ on_close 5 at_rest
on_chunk-on_close_example = on_chunk-on_close 5 (1 ∷ []) at_rest

-- The pools.
abbrev two_conns : List IdleConn
two_conns = record { sock = 4; at = 1 } ∷ record { sock = 3; at = 31 * 10 ^ 9 } ∷ []

take_idle_lem_example :
    (old : List IdleConn) × All (IsOld (32 * 10 ^ 9)) old
    × (((two_conns ≡ old) × (take_idle (32 * 10 ^ 9) two_conns ≡ (none, [])))
        ⊎ ((c : IdleConn) × (rest : List IdleConn) × (two_conns ≡ old ++ c ∷ rest)
            × (32 * 10 ^ 9 - c.at ≤ idle_span)
            × (take_idle (32 * 10 ^ 9) two_conns ≡ (some c.sock, rest))))
take_idle_lem_example = take_idle_lem (32 * 10 ^ 9) two_conns

use_pool-IsBounded_example :
    IsBounded
      (use_pool (released (codes "h:80") 3 7 ∷ acquired (codes "h:80") 8 ∷ purged 9 ∷ []) [])
use_pool-IsBounded_example =
    use_pool-IsBounded (released (codes "h:80") 3 7 ∷ acquired (codes "h:80") 8 ∷ purged 9 ∷ [])

acquire-release_example : (acquire (codes "h:80") 9 (release (codes "h:80") 3 7 [])).0 ≡ some 3
unfolding conns lookup
acquire-release_example = acquire-release (codes "h:80") 3 7 9 [] (omega arith) (omega arith)

abbrev no_jobs : Workers ℕ
no_jobs = record { queue = []; stopped = false; workers = 1; begun = [] }

abbrev some_events : List (Event ℕ)
some_events = submit 1 ∷ wake ∷ submit 2 ∷ stop ∷ submit 3 ∷ wake ∷ []

run_events-begun_example :
    Workers.begun (run_events some_events no_jobs) ++ Workers.queue (run_events some_events no_jobs)
    ≡ (no_jobs.begun ++ no_jobs.queue) ++ submitted some_events
run_events-begun_example = run_events-begun some_events no_jobs

-- HTTP.
abbrev some_input : Input
some_input = codes "ab" ∷ codes "cde" ∷ []

read_length_lem_example :
    (join (read_length 5 4 some_input).sent ++ join (read_length 5 4 some_input).rest
      ≡ join some_input)
    × (length (join (read_length 5 4 some_input).sent) ≤ 4)
    × ((read_length 5 4 some_input).complete ≡ length (join (read_length 5 4 some_input).sent) == 4)
read_length_lem_example = read_length_lem 5 4 some_input (omega arith)

-- A service that answers each request.
abbrev a_conn : Conn
a_conn = record {
  writes = λ request. true;
  input = codes "HTTP/1.1 200 OK\r\nContent-Length: 2\r\n\r\nok" ∷ [];
}

abbrev an_outside : Outside
an_outside = record {
  kept = λ attempt sock. a_conn;
  fresh = λ attempt host port. inl (1, a_conn);
  clock = λ attempt. (attempt, suc attempt);
}

-- A session that ends while a job is at work.
abbrev busy : State
busy = record at_rest {
  jobs = (1, a_stream) ∷ [];
  workers = (0, (5, chunk 5 (1 ∷ []) ∷ stop 5 ∷ [])) ∷ [];
}

abbrev late_steps : List Step
late_steps = work 0 ∷ ping ∷ take_job an_outside [] ∷ work 0 ∷ work 0 ∷ []

teardown-Quiet_example :
    ((teardown busy).streams ≡ [])
    × ((run (a_tunnel ∷ []) late_steps (teardown busy)).sent ≡ busy.sent)
teardown-Quiet_example = teardown-Quiet (a_tunnel ∷ []) late_steps busy

handle_http_stream-IsAnswer_example :
    IsAnswer 5 (handle_http_stream 5 (codes "h:80") a_stream an_outside []).0
handle_http_stream-IsAnswer_example =
    handle_http_stream-IsAnswer 5 (codes "h:80") a_stream an_outside []

-- The command line, and a management request.
parse_args-Accepts_example :
    Accepts
      (parse_args (codes "--tunnel" ∷ codes "id=web,local=h:80" ∷ codes "--isolate" ∷ []) no_args)
parse_args-Accepts_example =
    parse_args-Accepts (codes "--tunnel" ∷ codes "id=web,local=h:80" ∷ codes "--isolate" ∷ [])

abbrev the_reply : InMsg
the_reply = record blank { type = codes "mgmt_resp"; req_id = 1; status = pos 404 }

abbrev before_reply : List (Result InMsg)
before_reply = err truncated ∷ ok (record blank { type = codes "ping" }) ∷ []

no-IsAnswer : ¬ Awaited.IsAnswer (record blank { type = codes "ping" })
no-IsAnswer (t, r) = ground (arith, r)

await_reply-append_example :
    (code : ℕ) × IsExit (pos 404) code
    × (await_reply (before_reply ++ ok the_reply ∷ []) 0
        ≡ record { code = code; pongs = 0 + pings before_reply; body = some [] })
await_reply-append_example =
    await_reply-append before_reply [] the_reply 0 (tt, (no-IsAnswer, tt)) (refl, refl)

-- A chunked body.
abbrev letters : List Chunk
letters = (codes "5", codes "hello") ∷ (codes "1A;x=y", codes "abcdefghijklmnopqrstuvwxyz") ∷ []

read_chunks-encode_chunks_example :
    (sent : List Bytes) × (read_chunks
        (suc (calls (encode_chunks letters (codes "0") ∷ [])))
        (encode_chunks letters (codes "0") ∷ [])
      ≡ record { sent = sent; complete = true; rest = [] })
    × (join sent ≡ bodies letters)
unfolding chunk_size skip_spaces is_space
read_chunks-encode_chunks_example =
    read_chunks-encode_chunks letters (codes "0") []
      (
        (b'h', codes "ello", refl, (b'5', [], refl, omega arith, omega arith, refl)),
        (
          (
            b'a',
            codes "bcdefghijklmnopqrstuvwxyz",
            refl,
            (b'1', codes "A;x=y", refl, omega arith, omega arith, refl),
          ),
          tt,
        ),
      )
      (b'0', [], refl, omega arith, omega arith, refl)
