-- ===== src/Witness/Http.antt =====
-- internal/witness/http.go, and the method Checkpoint of witness.go. The lowercase hex digits of a
-- SHA-256 hash are a parameter; http.Error and http.NotFound write a line of plain text.
pub mod Notes
use vitrum.Base.{
  ℕ, List, [], ◌∷◌, ◌++◌, Bool, true, false, not, ◌&&◌, ◌||◌, Option, none, some, leb, ltb, ◌*◌,
  ◌==◌, if◌then◌else◌, length,
}
use vitrum.Base.Bytes.{Bytes, codes, bytes_eq}
use vitrum.Base.Dict.{Dict}
use vitrum.Witness.{LogState}
use vitrum.Witness.Logs.{Store}
use vitrum.Witness.Pool.{Reply, Outcome, answers, waits, Logic, Witness, add_checkpoint}

pub record Response : Type 0 where
  pub code : ℕ
  pub content_type : Bytes
  pub body : Bytes

-- An answer, or a wait for the entry of an origin, whose result respond then sends.
pub data Served : Type 0 where
  responds : Response → Served
  waits_for : Bytes → Served

abbrev pub max_request_size : ℕ
max_request_size = 64 * 1024

abbrev pub plain_text : Bytes
plain_text = codes "text/plain; charset=utf-8"

abbrev pub http_error : ℕ → Bytes → Response
http_error code text = record { code = code; content_type = plain_text; body = text ++ codes "\n" }

unfoldable pub respond : Reply → Response
respond r = record {
  code = r.code;
  content_type = if r.code == 409 then codes "text/x.tlog.size" else plain_text;
  body = r.resp;
}

abbrev of_outcome : Outcome → Served
of_outcome (answers r) = responds (respond r)
of_outcome (waits origin) = waits_for origin

abbrev is_hex : ℕ → Bool
is_hex c = leb 48 c && leb c 57 || leb 97 c && leb c 102

unfoldable pub all_hex : Bytes → Bool
all_hex [] = true
all_hex (c ∷ r) = is_hex c && all_hex r

-- originHashRE
unfoldable pub is_origin_hash : Bytes → Bool
unfolding all_hex
is_origin_hash h = length h == 64 && all_hex h

module _ (hash_of : Bytes → Bytes) where
  -- The loop of Checkpoint
  unfoldable pub find_note : Bytes → Dict LogState → Option Bytes
  find_note h [] = none
  find_note h ((origin, st) ∷ m) =
      if bytes_eq (hash_of origin) h then some st.note else find_note h m

  abbrev of_note : Option Bytes → Response
  of_note none = http_error 404 (codes "404 page not found")
  of_note (some note) = record { code = 200; content_type = plain_text; body = note }

  module _ {S I : Type 0} (g : Logic) (store : Store S I) where
    unfoldable pub checkpoint : Witness S → Bytes → Option Bytes
    unfolding find_note
    checkpoint w h = find_note h (store.all w.store)

    -- POST /add-checkpoint; a body that is longer than the bound is not read to its end.
    unfoldable pub post_add_checkpoint : Witness S → Bytes → Witness S × Served
    unfolding respond
    post_add_checkpoint w body =
        if ltb max_request_size (length body)
        then (w, responds (http_error 400 (codes "request too large")))
        else (let (v, o) = add_checkpoint g store w body in (v, of_outcome o))

    -- GET /{originHash}/checkpoint
    unfoldable pub get_checkpoint : Witness S → Bytes → Response
    unfolding checkpoint is_origin_hash
    get_checkpoint w h =
        if not (is_origin_hash h)
        then http_error 400 (codes "malformed origin hash")
        else of_note (checkpoint w h)
