-- ===== src/Stream.antt =====
-- include/sdlog/streams.h and io/base.c: streams as tables of methods over a context.
-- `C` is the type of what `context` points to; a stream whose methods never look at it has any `C`.
pub mod Blocked
pub mod Pipe
pub mod Quiet
pub mod Sink
pub mod SlowSink
pub mod SlowSource
pub mod Source
pub mod Still
pub mod Tests
use libsdlog.Prelude.{
  ℕ, zero, suc, ◌-◌, Option, none, some, List, [], ◌∷◌, ◌++◌, length, drop, leb, if◌then◌else◌,
}
use libsdlog.Outcome.{
  Outcome, ok, Status, success, eread, ewrite, unimplemented, Cmd, pure, throw, crash, spin, deref,
  ◌>>=◌, ◌>>◌, check,
}
use libsdlog.Memory.{Mem}

-- What a method can change: the context of its stream, and the heap.
pub record Env (C : Type 0) : Type 0 where
  pub context : C
  pub mem : Mem

-- `sdlog_istream_spec_t`; `none` is a NULL method. `read` returns its code with the bytes that it put
-- into `data`; `*bytes_read` is their number, and `none` if the method left it unset.
pub record IStreamSpec (C : Type 0) : Type 0 where
  pub init : Option (Cmd (Env C) Status)
  pub destroy : Option (Cmd (Env C) (Unit {0}))
  pub read : Option (ℕ → Cmd (Env C) (Status × Option (List ℕ)))

-- `sdlog_ostream_spec_t`. `write` returns its code with `*bytes_written`, `none` if left unset.
pub record OStreamSpec (C : Type 0) : Type 0 where
  pub init : Option (Cmd (Env C) Status)
  pub destroy : Option (Cmd (Env C) (Unit {0}))
  pub begin : Option (Cmd (Env C) Status)
  pub write : Option (List ℕ → Cmd (Env C) (Status × Option ℕ))
  pub flush : Option (Cmd (Env C) Status)
  pub end : Option (Cmd (Env C) Status)

-- `sdlog_istream_t` and `sdlog_ostream_t`: a table `Spec` and the context, NULL once destroyed.
pub record Stream (Spec : Type 0) (C : Type 0) : Type 0 where
  pub methods : Option Spec
  pub context : Option C

pub record StreamState (Spec : Type 0) (C : Type 0) : Type 0 where
  pub stream : Stream Spec C
  pub mem : Mem

abbrev pub IState : Type 0 → Type 0
IState C = StreamState (IStreamSpec C) C

abbrev pub OState : Type 0 → Type 0
OState C = StreamState (OStreamSpec C) C

module _ {Spec C : Type 0} where
  -- A stream with its methods and its context.
  abbrev pub opened : Spec → C → Mem → StreamState Spec C
  opened spec c m = record { stream = record { methods = some spec; context = some c }; mem = m }

  abbrev pub closed : Mem → StreamState Spec C
  closed m = record { stream = record { methods = none; context = none }; mem = m }

  -- `stream->methods`, a fault after `destroy`
  unfoldable pub methods_of : Cmd (StreamState Spec C) Spec
  methods_of s = elim s.stream.methods [ none ↦ crash s | some spec ↦ pure spec s ]

  -- A call of a method.
  unfoldable pub call : {A : Type 0} → Cmd (Env C) A → Cmd (StreamState Spec C) A
  call m s = elim s.stream.context [
    | none ↦ crash s
    | some c ↦
        let (r, e) = m (record { context = c; mem = s.mem }) in
        (
          r,
          record {
            stream = record { methods = s.stream.methods; context = some e.context };
            mem = e.mem;
          },
        )
  ]

  unfoldable pub call_void : Option (Cmd (Env C) (Unit {0})) → Cmd (StreamState Spec C) (Unit {0})
  unfolding call
  call_void none = pure tt
  call_void (some m) = call m

  -- `method ? method(stream) : SDLOG_SUCCESS`
  unfoldable pub call_optional : Option (Cmd (Env C) Status) → Cmd (StreamState Spec C) (Unit {0})
  unfolding call
  call_optional none = pure tt
  call_optional (some m) = do status ← call m; check status

  unfoldable pub stream_init : Spec → C → Cmd (StreamState Spec C) (Unit {0})
  stream_init spec ctx s = (ok tt, opened spec ctx s.mem)

  unfoldable pub stream_close : Cmd (StreamState Spec C) (Unit {0})
  stream_close s = (ok tt, closed s.mem)

module _ {C : Type 0} where
  unfoldable pub istream_init : IStreamSpec C → C → Cmd (IState C) (Unit {0})
  unfolding stream_init
  istream_init spec ctx = stream_init spec ctx

  unfoldable pub istream_destroy : Cmd (IState C) (Unit {0})
  unfolding methods_of call_void stream_close
  istream_destroy = do methods ← methods_of; call_void methods.destroy; stream_close

  -- `methods->read ? methods->read(...) : SDLOG_UNIMPLEMENTED`
  unfoldable pub read_with :
      Option (ℕ → Cmd (Env C) (Status × Option (List ℕ)))
      → ℕ
      → Cmd (IState C) (Status × Option (List ℕ))
  unfolding call
  read_with none length = pure (unimplemented, none)
  read_with (some read) length = call (read length)

  unfoldable pub istream_read : ℕ → Cmd (IState C) (Status × Option (List ℕ))
  unfolding methods_of read_with
  istream_read zero = pure (success, some [])
  istream_read (suc length) = do methods ← methods_of; read_with methods.read (suc length)

  -- The loop, with `length` bytes to go and `data` read before; a round for each unit of fuel.
  unfoldable pub read_loop : (fuel length : ℕ) → (data_read : List ℕ) → Cmd (IState C) (List ℕ)
  unfolding istream_read
  read_loop fuel zero data_read = pure data_read
  read_loop zero (suc n) data_read = spin
  read_loop (suc fuel) (suc n) data_read = do
    (status, got) ← istream_read (suc n)
    check status
    bytes ← deref got
    let rest = read_loop fuel (suc n - length bytes) (data_read ++ bytes)
    if leb (length bytes) (suc n) then rest else throw eread

  unfoldable pub istream_read_exactly : (fuel length : ℕ) → Cmd (IState C) (List ℕ)
  unfolding read_loop
  istream_read_exactly fuel length = read_loop fuel length []

  unfoldable pub ostream_init : OStreamSpec C → C → Cmd (OState C) (Unit {0})
  unfolding stream_init
  ostream_init spec ctx = stream_init spec ctx

  unfoldable pub ostream_destroy : Cmd (OState C) (Unit {0})
  unfolding methods_of call_void stream_close
  ostream_destroy = do methods ← methods_of; call_void methods.destroy; stream_close

  unfoldable pub ostream_begin_session : Cmd (OState C) (Unit {0})
  unfolding methods_of call_optional
  ostream_begin_session = do methods ← methods_of; call_optional methods.begin

  unfoldable pub ostream_end_session : Cmd (OState C) (Unit {0})
  unfolding methods_of call_optional
  ostream_end_session = do methods ← methods_of; call_optional methods.end

  unfoldable pub ostream_flush : Cmd (OState C) (Unit {0})
  unfolding methods_of call_optional
  ostream_flush = do methods ← methods_of; call_optional methods.flush

  -- `methods->write ? methods->write(...) : SDLOG_UNIMPLEMENTED`
  unfoldable pub write_with :
      Option (List ℕ → Cmd (Env C) (Status × Option ℕ))
      → List ℕ
      → Cmd (OState C) (Status × Option ℕ)
  unfolding call
  write_with none bytes = pure (unimplemented, none)
  write_with (some write) bytes = call (write bytes)

  unfoldable pub ostream_write : List ℕ → Cmd (OState C) (Status × Option ℕ)
  unfolding methods_of write_with
  ostream_write [] = pure (success, some 0)
  ostream_write (b ∷ bytes) = do methods ← methods_of; write_with methods.write (b ∷ bytes)

  unfoldable pub ostream_write_all : (fuel : ℕ) → List ℕ → Cmd (OState C) (Unit {0})
  unfolding ostream_write
  ostream_write_all fuel [] = pure tt
  ostream_write_all zero (b ∷ bytes) = spin
  ostream_write_all (suc fuel) (b ∷ bytes) = do
    (status, count) ← ostream_write (b ∷ bytes)
    check status
    written ← deref count
    let rest = ostream_write_all fuel (drop written (b ∷ bytes))
    if leb written (length (b ∷ bytes)) then rest else throw ewrite
