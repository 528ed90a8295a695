-- ===== src/Suite/Streams.antt =====
-- test/test_io.c: what the tests read from the streams and write to them.
use libsdlog.Prelude.{
  ℕ, ◌-◌, ◌≡◌, refl, Bool, false, Option, none, some, List, [], ◌++◌, length, take, drop, codes,
  ◌==◌,
}
use libsdlog.Outcome.{ok, fail, Status, success, eof, ewrite, Cmd, pure, ◌>>=◌, ◌>>◌}
use libsdlog.Stream.{
  IState, OState, closed, istream_read, istream_read_exactly, istream_destroy, ostream_write,
  ostream_write_all, ostream_flush, ostream_destroy,
}
use libsdlog.Model.Tests.{heap}
use libsdlog.Null.{NoContext, null_read, null_write, istream_init_null, ostream_init_null}
use libsdlog.Buffer.{
  IStreamContext, OStreamContext, buffer_read, buffer_write, buffer_destroy_i, buffer_destroy_o,
  istream_init_buffer, ostream_init_buffer, ostream_buffer_get,
}
use libsdlog.File.{
  Stdio, FileContext, file_read, file_write, file_flush, file_destroy, istream_init_file,
  ostream_init_file,
}

abbrev digits : List ℕ
digits = codes "12345678901234567890"

-- `fmemopen` of an array: the bytes before the position, and the room behind it.
record MemFile : Type 0 where
  bytes : List ℕ
  room : ℕ
  at_end : Bool

abbrev file : List ℕ → ℕ → MemFile
file bytes room = record { bytes = bytes; room = room; at_end = false }

abbrev mem_stdio : Stdio MemFile
mem_stdio = record {
  fread = λ f n.
      (take n f.bytes, record f { bytes = drop n f.bytes; at_end = length f.bytes - n == 0 });
  fwrite = λ f bytes. (
    length (take f.room bytes),
    record f { bytes = f.bytes ++ take f.room bytes; room = f.room - length bytes },
  );
  ferror = λ f. false;
  feof = λ f. f.at_end;
  fflush = λ f. (false, f);
}

-- What the readers of a file and of a buffer have in common: the last two calls read 2 bytes and
-- find the end.
abbrev Seen : Type 0
Seen = List ℕ × List ℕ × List ℕ × (Status × Option (List ℕ)) × (Status × Option (List ℕ))

abbrev all_seen : Seen
all_seen =
    (codes "1234567890", codes "12345", codes "678", (success, some (codes "90")), (eof, some []))

reads : {C : Type 0} → Cmd (IState C) Seen
unfolding istream_read istream_read_exactly istream_destroy
reads = do
  first ← istream_read_exactly 10 10
  second ← istream_read_exactly 5 5
  third ← istream_read_exactly 3 3
  fourth ← istream_read 20
  fifth ← istream_read 20
  istream_destroy
  pure (first, second, third, fourth, fifth)

-- `test_istream_file`
istream_file : Cmd (IState (FileContext MemFile)) Seen
unfolding istream_init_file file_read file_destroy reads
istream_file = istream_init_file mem_stdio (file digits 0) >> reads

istream_file_run :
    ((istream_file (closed (heap 0))).0 ≡ ok all_seen)
    × ((istream_file (closed (heap 0))).1 ≡ closed (record (heap 0) { calls = 1 }))
unfolding istream_file
istream_file_run = (refl, refl)

-- `test_istream_null`
istream_null : Cmd (IState NoContext) (Status × Option (List ℕ))
unfolding istream_init_null null_read istream_read istream_destroy
istream_null = do istream_init_null; seen ← istream_read 20; istream_destroy; pure seen

istream_null_run : istream_null (closed (heap 0)) ≡ (ok (eof, none), closed (heap 0))
unfolding istream_null
istream_null_run = refl

-- `test_istream_buffer`, which first reads no bytes
istream_buffer : Cmd (IState IStreamContext) ((Status × Option (List ℕ)) × Seen)
unfolding istream_init_buffer buffer_read buffer_destroy_i istream_read reads
istream_buffer = do
  istream_init_buffer digits
  nothing ← istream_read 0
  seen ← reads
  pure (nothing, seen)

istream_buffer_run :
    istream_buffer (closed (heap 0))
    ≡ (ok ((success, some []), all_seen), closed (record (heap 0) { calls = 1 }))
unfolding istream_buffer
istream_buffer_run = refl

-- `test_ostream_file`: the array has 32 bytes, so the second of two writes is cut off.
ostream_file : Cmd (OState (FileContext MemFile)) (Unit {0})
unfolding ostream_init_file file_write file_flush ostream_write_all ostream_flush
ostream_file = do
  ostream_init_file mem_stdio (file [] 32)
  ostream_write_all 20 digits
  ostream_flush
  ostream_write_all 20 digits

ostream_file_run :
    ((ostream_file (closed (heap 0))).0 ≡ fail ewrite)
    × ((ostream_file (closed (heap 0))).1.stream.context
        ≡ some (record { fp = some (file (codes "12345678901234567890123456789012") 0) }))
unfolding ostream_file
ostream_file_run = (refl, refl)

-- `test_ostream_null`
ostream_null : Cmd (OState NoContext) (Unit {0})
unfolding ostream_init_null null_write ostream_write_all ostream_flush ostream_destroy
ostream_null = do ostream_init_null; ostream_write_all 20 digits; ostream_flush; ostream_destroy

ostream_null_run : ostream_null (closed (heap 0)) ≡ (ok tt, closed (heap 0))
unfolding ostream_null
ostream_null_run = refl

-- `test_ostream_buffer`, which first writes no bytes
ostream_buffer : Cmd (OState OStreamContext) ((Status × Option ℕ) × (List ℕ × ℕ))
unfolding ostream_init_buffer ostream_buffer_get buffer_write buffer_destroy_o ostream_write
    ostream_write_all ostream_flush ostream_destroy
ostream_buffer = do
  ostream_init_buffer
  nothing ← ostream_write []
  ostream_write_all 20 digits
  ostream_flush
  ostream_write_all 20 digits
  ostream_write_all 20 digits
  seen ← ostream_buffer_get
  ostream_destroy
  pure (nothing, seen)

ostream_buffer_run : ostream_buffer (closed (heap 0)) ≡ (
  ok ((success, some 0), (digits ++ digits ++ digits, 60)),
  closed (record (heap 0) { calls = 4 }),
)
unfolding ostream_buffer
ostream_buffer_run = refl
