-- ===== src/Cbf/Fstream.antt =====
-- std::fstream on one binary file, as far as CbfFile uses it.
-- Writes do not fail, and a stream once bad stays so until it is opened again. A position is a count
-- of bytes from the start.
use cyc_flow.Base.{
  ℕ, ◌+◌, Bool, true, false, ◌==◌, if◌then◌else◌, List, [], ◌++◌, length, take, drop, slice,
}
use cyc_flow.Chunk.{Byte}

pub record Stream : Type 0 where
  pub is_open : Bool
  pub good : Bool
  pub bytes : List Byte
  pub pos : ℕ
  pub gcount : ℕ

abbrev pub closed : Stream
closed = record { is_open = false; good = true; bytes = []; pos = 0; gcount = 0 }

-- The stream of a file that could be opened.
abbrev pub opened : List Byte → Stream
opened bytes = record { is_open = true; good = true; bytes = bytes; pos = 0; gcount = 0 }

-- A stream whose file could not be opened.
abbrev pub unopened : Stream
unopened = record { is_open = false; good = false; bytes = []; pos = 0; gcount = 0 }

unfoldable pub write : List Byte → Stream → Stream
write content f =
    if f.good
    then record f {
      bytes = take f.pos f.bytes ++ (content ++ drop (f.pos + length content) f.bytes);
      pos = f.pos + length content;
    }
    else f

-- The bytes read, at most `n`, and the stream; fewer than `n` leave it bad.
unfoldable pub read : ℕ → Stream → List Byte × Stream
read n f =
    let got = slice f.pos n f.bytes in
    if f.good
    then (got, record f { pos = f.pos + length got; gcount = length got; good = length got == n })
    else ([], record f { gcount = 0 })

-- -1, where the stream is bad, is 0: the caller only asks whether it is positive.
unfoldable pub tell : Stream → ℕ
tell f = if f.good then f.pos else 0

unfoldable pub seek : ℕ → Stream → Stream
seek pos f = if f.good then record f { pos = pos } else f

unfoldable pub seek_by : ℕ → Stream → Stream
seek_by n f = if f.good then record f { pos = f.pos + n } else f
