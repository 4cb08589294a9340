-- ===== src/Base/Text/Words.antt =====
-- Printing ASCII is no white space, and a line feed or a blank is: how texts of such words are
-- trimmed and split.
use Prim.Native.Nat.{ℕ, zero, suc, ◌+◌, ◌≤◌, ◌<◌}
use mathlib.Core.Path.{◌≡◌, refl, sym, ap, ◌∙◌}
use mathlib.Core.Logic.{◌≢◌}
use mathlib.Core.Option.{Option, none}
use mathlib.Core.List.{List, [], ◌∷◌, ◌++◌, reverse, reverse_aux, append_assoc, append-nil}
use mathlib.Core.List
use native.Mathlib.Omega.{arith}
use vitrum.Base.Seq.{length, All, length-append}
use vitrum.Base.Bytes.{Bytes}
use vitrum.Base.Text.{
  strip_space, strip_space_back, strip_all, trim_left, trim_right_space, trim_space, end_field,
  fields_loop, fields,
}

abbrev pub IsPrint : ℕ → Type 0
IsPrint c = (33 ≤ c) × (c ≤ 126)

strip_space_print : (c : ℕ) (r : Bytes) → IsPrint c → strip_space (c ∷ r) ≡ none
unfolding strip_space
strip_space_print c [] h = ground arith
strip_space_print c (d ∷ []) h = ground arith
strip_space_print c (d ∷ e ∷ r) h = ground arith

strip_space_back_print : (c : ℕ) (r : Bytes) → IsPrint c → strip_space_back (c ∷ r) ≡ none
unfolding strip_space_back
strip_space_back_print c [] h = ground arith
strip_space_back_print c (d ∷ []) h = ground arith
strip_space_back_print c (d ∷ e ∷ r) h = ground arith

strip_all-print :
    (strip : Bytes → Option Bytes) (fuel : ℕ) (w : Bytes)
    → strip w ≡ none
    → strip_all strip fuel w ≡ w
unfolding strip_all
strip_all-print strip zero w h = refl
strip_all-print strip (suc fuel) w h = rw (h, strip_all) refl

All-reverse_aux :
    (w acc : Bytes) → All IsPrint w → All IsPrint acc → All IsPrint (reverse_aux w acc)
All-reverse_aux [] acc hw ha = ha
All-reverse_aux (c ∷ w) acc (hc, hw) ha = All-reverse_aux w (c ∷ acc) hw (hc, ha)

-- A word is not stripped, at either end.
front_of_word : (w b : Bytes) → All IsPrint w → w ≢ [] → strip_space (w ++ b) ≡ none
front_of_word [] b h e = absurd (e refl)
front_of_word (c ∷ w) b h e = strip_space_print c (w ++ b) h.0

back_of_word : (w : Bytes) → All IsPrint w → strip_space_back w ≡ none
unfolding strip_space_back
back_of_word [] h = refl
back_of_word (c ∷ w) h = strip_space_back_print c w h.0

strip_line :
    (fuel : ℕ) (w : Bytes) → All IsPrint w → 0 < fuel → strip_all strip_space_back fuel (10 ∷ w) ≡ w
unfolding strip_all strip_space_back
strip_line zero w h hf = absurd (omega arith)
strip_line (suc fuel) w h hf = strip_all-print strip_space_back fuel w (back_of_word w h)

-- A line of printing characters, trimmed of its line feed.
pub trim_space-line : (w : Bytes) → All IsPrint w → w ≢ [] → trim_space (w ++ (10 ∷ [])) ≡ w
unfolding trim_space trim_left trim_right_space
trim_space-line w h e =
    rw
      (
        strip_all-print strip_space (length (w ++ (10 ∷ []))) (w ++ (10 ∷ []))
            (front_of_word w (10 ∷ []) h e),
        List.reverse-append w (10 ∷ []),
        strip_line (length (w ++ (10 ∷ []))) (reverse w) (All-reverse_aux w [] h tt)
            (omega (arith, length-append w (10 ∷ []))),
      )
      (List.reverse-reverse w)

-- Printing characters join the field that is being read.
fields_loop-word :
    (w b cur : Bytes) (f g : ℕ)
    → All IsPrint w
    → g ≡ length w + f
    → fields_loop g cur (w ++ b) ≡ fields_loop f (cur ++ w) b
unfolding fields_loop
fields_loop-word [] b cur f g h e = let same : g ≡ f = omega arith in rw (same, append-nil cur) refl
fields_loop-word (c ∷ w) b cur f zero h e = absurd (omega arith)
fields_loop-word (c ∷ w) b cur f (suc g) h e =
    rw (strip_space_print c (w ++ b) h.0, fields_loop)
      (fields_loop-word w b (cur ++ (c ∷ [])) f g h.1 (omega arith)
        ∙ ap (λ (l : Bytes). fields_loop f l b) (append_assoc cur (c ∷ []) w))

end_field-word : (w : Bytes) (rest : List Bytes) → w ≢ [] → end_field w rest ≡ w ∷ rest
end_field-word [] rest e = absurd (e refl)
end_field-word (c ∷ w) rest e = refl

fields_end : (f : ℕ) (cur : Bytes) → fields_loop f cur [] ≡ end_field cur []
unfolding fields_loop
fields_end zero cur = refl
fields_end (suc f) cur = refl

-- One word is one field.
pub fields_word : (w : Bytes) → All IsPrint w → w ≢ [] → fields w ≡ w ∷ []
unfolding fields
fields_word w h e =
    ap (fields_loop (length w) []) (sym (append-nil w))
    ∙ fields_loop-word w [] [] 0 (length w) h (omega arith)
    ∙ fields_end 0 w
    ∙ end_field-word w [] e

fields_blank :
    (f : ℕ) (v w : Bytes) → fields_loop (suc f) v (32 ∷ w) ≡ end_field v (fields_loop f [] w)
unfolding fields_loop strip_space
fields_blank f v w = refl

-- Two words with a blank between them are two fields.
pub fields_words :
    (v w : Bytes)
    → All IsPrint v
    → v ≢ []
    → All IsPrint w
    → w ≢ []
    → fields (v ++ (32 ∷ w)) ≡ v ∷ w ∷ []
unfolding fields
fields_words v w hv ev hw ew =
    fields_loop-word v (32 ∷ w) [] (suc (length w)) (length (v ++ (32 ∷ w))) hv
      (omega (arith, length-append v (32 ∷ w)))
    ∙ fields_blank (length w) v w
    ∙ ap (end_field v) (fields_word w hw ew)
    ∙ end_field-word v (w ∷ []) ev

-- Printing characters have no white space to trim.
pub trim_space-word : (w : Bytes) → All IsPrint w → w ≢ [] → trim_space w ≡ w
unfolding trim_space trim_left trim_right_space
trim_space-word w h e =
    rw
      (
        ap (strip_all strip_space (length w)) (sym (append-nil w)),
        strip_all-print strip_space (length w) (w ++ []) (front_of_word w [] h e),
        append-nil w,
        strip_all-print strip_space_back (length w) (reverse w)
            (back_of_word (reverse w) (All-reverse_aux w [] h tt)),
      )
      (List.reverse-reverse w)
