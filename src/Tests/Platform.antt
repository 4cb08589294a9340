-- ===== src/Tests/Platform.antt =====
-- internal/state: stand-ins for the AEAD, the digest, the block device and the RPMB driver.
use vitrum.Base.{
  ap, take-all, ℕ, ◌+◌, ◌-◌, ◌*◌, ◌≡◌, refl, List, [], ◌∷◌, ◌++◌, Bool, true, Option, none, some,
  ◌==◌, ◌&&◌, ◌||◌, leb, if◌then◌else◌, length, take, replicate, length-append, length-take,
  take-append_of, arith,
}
use vitrum.Base.Bytes.{Bytes}
use vitrum.Base.Int.{pos}
use vitrum.State.Blob.{Crypto, IsCrypto, BlockDevice, IsDisk, tag_len}
use vitrum.State.Anchor.{AnchorState, mem_anchor}
use vitrum.State.Anchor.Rpmb.{Rpmb, IsRpmb}
use vitrum.State.Store.{Platform}
use vitrum.Witness.{Checkpoint}

abbrev tag : Bytes
tag = replicate 16 0

-- A text and a tag of zeros; the digest is the first 32 bytes, with zeros behind a shorter text.
abbrev pub crypto : Crypto
crypto = record {
  seal = λ key salt text aad. text ++ tag;
  open_sealed = λ key salt sealed aad. some (take (length sealed - tag_len) sealed);
  sha256 = λ b. take 32 (b ++ replicate 32 0);
}

pub crypto-IsCrypto : IsCrypto crypto
crypto-IsCrypto = record {
  open-seal = λ key salt text aad. ap some (
      take-append_of (length (text ++ tag) - tag_len) text tag
        (omega (arith, length-append text tag)));
  length-seal = λ key salt text aad. length-append text tag;
  length-sha256 =
      λ b. length-take 32 (b ++ replicate 32 0) (omega (arith, length-append b (replicate 32 0)));
}

-- A disk as the log of what was written to it, the newest first. A part of what was written, and
-- what was never written, is not readable.
abbrev pub Log : Type 0
Log = List (ℕ × Bytes)

unfoldable pub read_log : Log → ℕ → ℕ → Option Bytes
read_log [] lba n = if n == 0 then some [] else none
read_log ((at, buf) ∷ d) lba n =
    if n == 0
    then some []
    else if at == lba && length buf == n
    then some buf
    else if leb (at * 512 + length buf) (lba * 512) || leb (lba * 512 + n) (at * 512)
    then read_log d lba n
    else none

abbrev pub disk : BlockDevice Log
disk = record {
  info = λ d. (pos 512, pos 1000);
  read_blocks = read_log;
  write_blocks = λ d lba buf. ((lba, buf) ∷ d, true);
}

read_none : (d : Log) (lba : ℕ) → read_log d lba 0 ≡ some []
unfolding read_log
read_none [] lba = refl
read_none (x ∷ d) lba = refl

read_own : (d : Log) (lba : ℕ) (buf : Bytes) → read_log ((lba, buf) ∷ d) lba (length buf) ≡ some buf
unfolding read_log
read_own d lba [] = refl
read_own d lba (x ∷ buf) = ground arith

pub disk-IsDisk : IsDisk disk 512
unfolding read_log
disk-IsDisk = record {
  info-write = λ d lba buf. refl;
  read-write_same = λ d d' lba buf h. rw (← (ap (λ (w : Log × Bool). w.0) h)) (read_own d lba buf);
  read-write_apart = λ d lba other n buf h. ground (arith, read_none d other);
}

-- An RPMB partition that keeps the last buffer that was written to each sector.
abbrev pub Sectors : Type 0
Sectors = List (ℕ × Bytes)

unfoldable pub read_sector : Sectors → ℕ → ℕ → Option Bytes
read_sector [] sector n = some (replicate n 0)
read_sector ((at, buf) ∷ r) sector n =
    if at == sector then some (take n buf) else read_sector r sector n

abbrev pub rpmb : Rpmb Sectors
rpmb = record { read = read_sector; write = λ r sector buf. ((sector, buf) ∷ r, true) }

pub rpmb-IsRpmb : IsRpmb rpmb
unfolding read_sector
rpmb-IsRpmb = record {
  read-write = λ r r' sector buf h.
      rw (← (ap (λ (w : Sectors × Bool). w.0) h)) (ground (arith, take-all (length buf) buf refl));
}

abbrev pub parse_checkpoint : Bytes → Option Checkpoint
parse_checkpoint (o ∷ n ∷ h ∷ r) = some (record { origin = o ∷ []; n = pos n; hash = h ∷ [] })
parse_checkpoint _ = none

abbrev pub platform : Platform Log AnchorState
platform = record {
  crypto = crypto;
  device = disk;
  anchor = mem_anchor;
  parse_checkpoint = parse_checkpoint;
}
