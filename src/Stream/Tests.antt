-- ===== src/Stream/Tests.antt =====
-- Runs of io/base.c over pipes that do not block.
use libsdlog.Prelude.{◌≡◌, refl, some, [], ◌∷◌, arith, codes}
use libsdlog.Outcome.{ok, out_of_fuel, success, Ends}
use libsdlog.Stream.{Env, IStreamSpec, OStreamSpec, istream_read_exactly, ostream_write_all}
use libsdlog.Stream.Blocked.{write_all_blocks, read_exactly_blocks}
use libsdlog.Stream.SlowSink as Sinks
use libsdlog.Stream.SlowSink.{write_all_slow-Took}
use libsdlog.Stream.SlowSource as Sources
use libsdlog.Stream.SlowSource.{read_exactly_slow-ReadFully}
use libsdlog.Stream.Pipe.{Pipe, busy, pipe, pipe_methods, pipe_sink, pipe_in, pipe_source}

write_all_slow-Took_example :
    Ends
      (λ _ s. Sinks.Took pipe_methods pipe_sink busy (codes "abc") s)
      (Sinks.TookSome pipe_methods pipe_sink busy (codes "abc"))
      (ostream_write_all 6 (codes "abc") (Sinks.at_env pipe_methods busy))
write_all_slow-Took_example =
    write_all_slow-Took pipe_methods pipe_sink 6 (codes "abc") busy (omega arith) (omega arith)

-- The four rounds that it really takes, and that three are not enough.
busy_rounds :
    (ostream_write_all 4 (codes "abc") (Sinks.at_env pipe_methods busy)
      ≡ (ok tt, Sinks.at_env pipe_methods (pipe [] (codes "xabc"))))
    × ((ostream_write_all 3 (codes "abc") (Sinks.at_env pipe_methods busy)).0 ≡ out_of_fuel)
unfolding ostream_write_all
busy_rounds = (refl, refl)

abbrev full : Env Pipe
full = pipe (0 ∷ 2 ∷ 0 ∷ []) (codes "abcd")

read_exactly_slow-ReadFully_example :
    Ends
      (Sources.ReadFully pipe_in pipe_source full 3)
      (Sources.Ended pipe_in pipe_source full 3)
      (istream_read_exactly 6 3 (Sources.at_env pipe_in full))
read_exactly_slow-ReadFully_example =
    read_exactly_slow-ReadFully pipe_in pipe_source 6 3 full (omega arith) tt

full_rounds :
    istream_read_exactly 4 3 (Sources.at_env pipe_in full)
    ≡ (ok (codes "abc"), Sources.at_env pipe_in (pipe [] (codes "d")))
unfolding istream_read_exactly
full_rounds = refl

-- A pipe that nobody reads from, or writes to, any more.
abbrev stuck_out : OStreamSpec Pipe
stuck_out = record pipe_methods { write = some (λ bytes e. (ok (success, some 0), e)) }

abbrev stuck_in : IStreamSpec Pipe
stuck_in = record pipe_in { read = some (λ n e. (ok (success, some []), e)) }

write_all_blocks_example :
    (e : Env Pipe) × (ostream_write_all 1000 (codes "abc") (Sinks.at_env stuck_out busy)
      ≡ (out_of_fuel, Sinks.at_env stuck_out e))
    × (e ≡ busy)
write_all_blocks_example =
    write_all_blocks stuck_out (λ bytes e. (ok (success, some 0), e)) refl (λ e. e ≡ busy)
      (λ b bytes e i. (e, refl, i)) 1000 b'a' (codes "bc") busy refl

read_exactly_blocks_example :
    (e : Env Pipe) × (istream_read_exactly 1000 3 (Sources.at_env stuck_in full)
      ≡ (out_of_fuel, Sources.at_env stuck_in e))
    × (e ≡ full)
read_exactly_blocks_example =
    read_exactly_blocks stuck_in (λ n e. (ok (success, some []), e)) refl (λ e. e ≡ full)
      (λ n e i. (e, refl, i)) 1000 2 full refl
