-- ===== src/File/Tests.antt =====
-- Runs of io/file.c with a file of the test's own, on a disk that has room for some bytes only.
use libsdlog.Prelude.{
  Bool, ◌||◌, not, Bool-cases, inl, leb, if◌then◌else◌, take_all, ℕ, ◌-◌, ◌≤◌, ◌<◌, ◌≡◌, ◌⊎◌, refl,
  sym, true, false, List, ◌++◌, length, take, drop, min, length-take, take-append-drop, length-drop,
  length_zero, ◌==◌, ==_iff, inr, arith, codes,
}
use libsdlog.Outcome.{eread, eof, Ends}
use libsdlog.Memory.{system}
use libsdlog.Stream.{Env, istream_read_exactly}
use libsdlog.Stream.Source as Sources
use libsdlog.File.{Stdio, FileContext, opened_file, istream_file_methods}
use libsdlog.File.Quiet.{Flushes, Saves}
use libsdlog.File.Sink.{Writes}
use libsdlog.File.Source.{Reads, read_exactly_file}

-- Of the bytes `taken` the first `flushed` stand on the disk, which has room for `space` of them, and
-- the others in the buffer of the FILE, which takes `room` bytes more. A flush that finds too little
-- space on the disk fails.
pub record Disk : Type 0 where
  pub unread : List ℕ
  pub taken : List ℕ
  pub flushed : ℕ
  pub room : ℕ
  pub space : ℕ
  pub failed : Bool

abbrev at_once : List ℕ → Disk → ℕ
at_once bytes f = min (length bytes) f.room

abbrev pub saved : Disk → List ℕ
saved f = take f.flushed f.taken

abbrev pub stdio : Stdio Disk
stdio = record {
  fread = λ f n. (take n f.unread, record f { unread = drop n f.unread });
  fwrite = λ f bytes. (
    at_once bytes f,
    record f {
      taken = f.taken ++ take (at_once bytes f) bytes;
      room = f.room - at_once bytes f;
      failed = f.failed || not (at_once bytes f == length bytes);
    },
  );
  ferror = λ f. f.failed;
  feof = λ f. length f.unread == 0;
  fflush = λ f.
      if leb (length f.taken) f.space
      then (false, record f { flushed = length f.taken })
      else (true, record f { failed = true });
}

pub stdio-Writes : Writes stdio (λ f. f.taken)
stdio-Writes = record { at_most = λ f bytes. omega arith; appends = λ f bytes. refl }

pub stdio-Flushes : Flushes stdio (λ f. f.taken)
stdio-Flushes f = elim (Bool-cases (leb (length f.taken) f.space)) [
  | inl fits ↦ rw fits refl
  | inr full ↦ rw full refl
]

pub stdio-Saves : Saves stdio (λ f. f.taken) saved
stdio-Saves f fine no_error = ground (arith, take_all (length f.taken) f.taken (omega arith))

pub stdio-Reads : Reads stdio (λ f. f.unread)
stdio-Reads = record {
  at_most = λ f n. omega (arith, length-take n f.unread);
  takes = λ f n. sym (take-append-drop n f.unread);
  why_short = λ f n h.
      (let none_left : length (drop n f.unread) ≡ 0 =
          omega (arith, length-take n f.unread, length-drop n f.unread, h) in
        inr (
          (==_iff (length (drop n f.unread)) 0).1 none_left,
          length_zero (drop n f.unread) none_left,
        ));
}

abbrev disk : Disk
disk = record {
  unread = codes "abc";
  taken = codes "x";
  flushed = 1;
  room = 2;
  space = 2;
  failed = false;
}

abbrev env : Env (FileContext Disk)
env = record {
  context = opened_file disk;
  mem = record { build = system; grant = λ n k. true; calls = 0; live = 1 };
}

read_exactly_file_example :
    Ends
      (λ bytes s. (bytes ≡ codes "ab") × (2 ≤ 3))
      (λ status s. (status ≡ eread) ⊎ ((status ≡ eof) × (3 < 2)))
      (istream_read_exactly 2 2 (Sources.at_env (istream_file_methods stdio) env))
read_exactly_file_example =
    read_exactly_file stdio (λ f. f.unread) stdio-Reads 2 2 disk env (omega arith) refl
