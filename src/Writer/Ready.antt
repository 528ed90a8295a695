-- ===== src/Writer/Ready.antt =====
-- A writer in use, against the abstract state of its log.
use libsdlog.Prelude.{
  ℕ, suc, ◌+◌, ◌-◌, ◌≤◌, ◌≡◌, ◌⊎◌, inl, refl, ap, ap₂, sym, ◌∙◌, Bool, some, List, ◌++◌, take,
  codes, arith,
}
use libsdlog.Outcome.{ok, Status, enomem, Ends}
use libsdlog.Outcome.Ends.{Ends-mono}
use libsdlog.Memory.{Mem, Block, sdlog_free}
use libsdlog.Model.{Column, Format}
use libsdlog.Model.AddColumn.{Refused}
use libsdlog.Model.Described.{Described, Described-some, some_mem}
use libsdlog.Model.Lifecycle.{type_array}
use libsdlog.Model.Size.{total_size}
use libsdlog.Encoder.{Arg}
use libsdlog.Encoder.Record.{Encodes}
use libsdlog.Stream.{Env, OStreamSpec}
use libsdlog.Stream.SlowSink.{at_env, Took}
use libsdlog.Stream.Quiet.{QuietSink, at_heap}
use libsdlog.Writer.{Writer, WriterState, on_heap, write_record_va}
use libsdlog.Writer.Known.{with_buf, Logged, Stopped, write_record_va-Logged}
use libsdlog.Writer.Spec.{fmt_columns, with_header}

-- The abstract state: whether a session is open, which formats are described, and the bytes on the
-- stream.
pub record Log : Type 0 where
  pub session : Bool
  pub formats : ℕ → ℕ
  pub bytes : List ℕ

abbrev pub more : Log → List ℕ → Log
more a bytes = record a { bytes = a.bytes ++ bytes }

module _ {C : Type 0} {spec : OStreamSpec C} (q : QuietSink spec) (grant : ℕ → ℕ → Bool) where
  -- The writer `w` on the stream `e` stands for the log `a`; `live` blocks are allocated.
  pub record Ready (live : ℕ) (a : Log) (w : Writer) (e : Env C) : Type 0 where
    pub inv : q.sink.Inv e
    pub view : q.sink.view e ≡ a.bytes
    pub grants : e.mem.grant ≡ grant
    pub blocks : e.mem.live ≡ live
    pub fmt : Described 128 (type_array (codes "FMT")) fmt_columns w.fmt_message_format
    pub session : w.has_session ≡ a.session
    pub known : (i : ℕ) → w.formats i ≡ a.formats i
    pub block : Block ℕ
    pub buf : w.buf ≡ some block
    pub size : block.size ≡ 256

  abbrev pub start : Writer → Env C → WriterState C
  start w e = record { writer = w; out = at_env spec e }

  pub record Reached (live : ℕ) (a : Log) (s : WriterState C) : Type 0 where
    pub writer : Writer
    pub env : Env C
    pub form : s ≡ start writer env
    pub ready : Ready live a writer env

  -- The errors: those of the stream, and ENOMEM if the allocator refuses some request.
  abbrev pub LogFails : Status → Type 0
  LogFails status = q.sink.Fails status ⊎ ((status ≡ enomem) × Refused grant)

  -- Of `bytes` a first part went to the stream before the error.
  pub record Partly (live : ℕ) (a : Log) (bytes : List ℕ) (status : Status) (s : WriterState C)
      : Type 0 where
    pub code : LogFails status
    pub count : ℕ
    pub reached : Reached live (more a (take count bytes)) s

  -- Nothing but the heap has changed.
  pub moved-Ready :
      (live live' : ℕ) (a : Log) (w : Writer) (e : Env C) (m : Mem)
      → Ready live a w e
      → m.grant ≡ grant
      → m.live ≡ live'
      → q.blocks ≤ live'
      → Ready live' a w (record e { mem = m })
  moved-Ready live live' a w e m r g l owned = record {
    inv = q.moved e m r.inv (g ∙ sym r.grants) (omega arith);
    view = q.same_view e m ∙ r.view;
    grants = g;
    blocks = l;
    fmt = r.fmt;
    session = r.session;
    known = r.known;
    block = r.block;
    buf = r.buf;
    size = r.size;
  }

  -- A block of the writer's own is freed.
  pub free-Reached :
      {A : Type 0} (p : A) (live : ℕ) (a : Log) (s : WriterState C)
      → q.blocks ≤ live
      → Reached (suc live) a s
      → (s' : WriterState C) × (on_heap (sdlog_free (some p)) s ≡ (ok tt, s')) × Reached live a s'
  unfolding sdlog_free
  free-Reached p live a s owned r =
      let m = r.env.mem in
      let m' : Mem = record m { live = m.live - 1 } in
      let e' : Env C = record r.env { mem = m' } in
      (
        start r.writer e',
        ap (on_heap (sdlog_free (some p))) r.form,
        record {
          writer = r.writer;
          env = e';
          form = refl;
          ready =
              moved-Ready (suc live) live a r.writer r.env m' r.ready r.ready.grants
                (omega (arith, r.ready.blocks)) owned;
        },
      )

  -- The stream took some bytes of a record that stands in the buffer.
  Took-Reached :
      (live : ℕ) (a : Log) (w : Writer) (e : Env C) (buffered xs : List ℕ) (s : WriterState C)
      (r : Ready live a w e)
      → s.writer ≡ with_buf w r.block.size buffered
      → Took spec (at_heap q live grant) e xs s.out
      → Reached live (more a xs) s
  Took-Reached live a w e buffered xs s r is_w t = record {
    writer = with_buf w r.block.size buffered;
    env = t.env;
    form = ap₂ (λ w' out. record { writer = w'; out = out }) is_w t.form;
    ready = record {
      inv = t.inv.0;
      view = t.seen ∙ ap (λ bs. bs ++ xs) r.view;
      grants = t.inv.2;
      blocks = t.inv.1;
      fmt = r.fmt;
      session = r.session;
      known = r.known;
      block = record { size = r.block.size; items = buffered };
      buf = refl;
      size = r.size;
    };
  }

  module _ (to_float : ℕ → ℕ) (fuel : ℕ) (enough : 256 + q.patience ≤ fuel) where
    -- One record, of any format.
    pub write_record-Reached :
        (id : ℕ) (type : List ℕ) (cols : List Column) (format : Format) (args : List Arg)
        (fields : List ℕ) (live : ℕ) (a : Log) (w : Writer) (e : Env C)
        → Described id type cols format
        → Encodes to_float cols args fields
        → 3 + total_size cols ≤ 256
        → Ready live a w e
        → Ends
            (λ _ s. Reached live (more a (with_header id fields)) s)
            (Partly live a (with_header id fields))
            (write_record_va to_float fuel format args (start w e))
    write_record-Reached id type cols format args fields live a w e d es fits r =
        let bytes = with_header id fields in
        let sink = at_heap q live grant in
        Ends-mono
          (λ _ s.
            Logged to_float _ id type cols _ format (some_mem cols) (Described-some d) es w r.block
              r.buf (omega (arith, r.size)) spec sink e s)
          (λ _ s. Reached live (more a bytes) s)
          (Stopped to_float _ id type cols _ format (some_mem cols) (Described-some d) es w r.block
            r.buf (omega (arith, r.size)) spec sink e)
          (Partly live a bytes) (write_record_va to_float fuel format args (start w e))
          (write_record_va-Logged to_float _ id type cols _ format (some_mem cols)
            (Described-some d) es w r.block r.buf (omega (arith, r.size)) spec sink fuel e
            (omega arith) (r.inv, r.blocks, r.grants))
          (λ _ s l. Took-Reached live a w e bytes bytes s r l.writer l.took)
          (λ status s l. record {
            code = inl l.took.fails;
            count = l.took.count;
            reached =
                Took-Reached live a w e bytes (take l.took.count bytes) s r l.writer l.took.took;
          })
