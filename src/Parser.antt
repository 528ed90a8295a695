-- ===== src/Parser.antt =====
-- include/sdlog/parser.h and core/parser.c: the parser, so far a place for the stream that it will
-- read the log from.
use libsdlog.Prelude.{Option, none, some}
use libsdlog.Outcome.{ok, Cmd}
use libsdlog.Stream.{IState}

-- `sdlog_parser_t`, with the stream itself in place of the pointer to it.
pub record Parser (C : Type 0) : Type 0 where
  pub stream : Option (IState C)

module _ {C : Type 0} where
  abbrev pub zero_parser : Parser C
  zero_parser = record { stream = none }

  unfoldable pub parser_init : IState C → Cmd (Parser C) (Unit {0})
  parser_init stream parser = (ok tt, record zero_parser { stream = some stream })

  unfoldable pub parser_destroy : Cmd (Parser C) (Unit {0})
  parser_destroy parser = (ok tt, zero_parser)
