-- ===== src/Admin/Unpack.antt =====
-- The tokens of a command line.
use skull.Prelude.{
  ℕ, zero, suc, ◌+◌, ◌-◌, ◌≤◌, ◌<◌, ◌≡◌, refl, ap, ap₂, ◌∙◌, Bool, true, false, not, none, some,
  List, [], ◌∷◌, ◌++◌, append_assoc, length, length-append, All, span_upto, ◌==◌, if◌then◌else◌,
  ltb, leb, arith,
}
use skull.Prelude.Index.{get_elem?}
use skull.Fmbuf.{Fmbuf}
use skull.Config.{Bytes, ok}
use skull.Config.Values.{has_char}
use skull.Config.Laws.{strsep-append, strsep-none}
use skull.Admin.{
  is_byte, unpack_line, AdminData, read_tokens, admin_unpack, sk_admin_data_create, byte_at_end,
  tailer_offset,
}

-- A token and the further ones, with a space before each.
abbrev pub join : Bytes → List Bytes → Bytes
join t [] = t
join t (u ∷ us) = t ++ b' ' ∷ join u us

abbrev pub IsToken : Bytes → Type 0
IsToken t = has_char b' ' t ≡ false

module _ {B : Type 0} where
  none_left : (n : ℕ) (d : AdminData B) → read_tokens n none d ≡ d
  unfolding read_tokens
  none_left zero d = refl
  none_left (suc n) d = refl

  read_tokens-join :
      (n : ℕ) (t : Bytes) (ts : List Bytes) (d : AdminData B)
      → All IsToken (t ∷ ts)
      → length (t ∷ ts) ≤ n
      → read_tokens n (some (join t ts)) d
        ≡ record d { argc = d.argc + length (t ∷ ts); command = d.command ++ t ∷ ts }
  unfolding read_tokens
  read_tokens-join zero t ts d h small = absurd (omega (arith, small))
  read_tokens-join (suc n) t [] d h small =
      rw (strsep-none b' ' t h.0)
        (none_left n (record d { argc = d.argc + 1; command = d.command ++ t ∷ [] }))
  read_tokens-join (suc n) t (u ∷ us) d h small = rw (strsep-append b' ' t (join u us) h.0) (
      read_tokens-join n u us (record d { argc = d.argc + 1; command = d.command ++ t ∷ [] }) h.1
        (omega (arith, small))
      ∙ ap₂ (λ n c. record d { argc = n; command = c }) (omega arith)
          (append_assoc d.command (t ∷ []) (u ∷ us)))

get_elem?-append :
    {A : Type 0} (s r : List A) (i : ℕ) → get_elem? (s ++ r) (length s + i) ≡ get_elem? r i
get_elem?-append {A} [] r i = let e : length {A = A} [] + i ≡ i = omega arith in rw e refl
get_elem?-append (x ∷ s) r i =
    let e : length (x ∷ s) + i ≡ suc (length s + i) = omega arith in rw e (get_elem?-append s r i)

get_elem?-append_left :
    {A : Type 0} (s r : List A) (i : ℕ) → i < length s → get_elem? (s ++ r) i ≡ get_elem? s i
get_elem?-append_left [] r i h = absurd (omega (arith, h))
get_elem?-append_left (x ∷ s) r zero h = refl
get_elem?-append_left (x ∷ s) r (suc i) h = get_elem?-append_left s r i (omega (arith, h))

span_upto_all :
    {A : Type 0} (p : A → Bool) (s r : List A)
    → All (λ c. p c ≡ true) s
    → (span_upto p (length s) (s ++ r)).0 ≡ s
unfolding span_upto
span_upto_all p [] r h = refl
span_upto_all p (x ∷ s) r h = rw (h.0, span_upto_all p s r h.1) refl

-- What follows the text of a line: a line feed, with a carriage return before it where `crlf`.
abbrev pub line_end : (crlf : Bool) → Bytes
line_end true = 13 ∷ 10 ∷ []
line_end false = 10 ∷ []

-- A text that does not end in a carriage return itself, where the line's end has none.
abbrev pub IsText : (crlf : Bool) → Bytes → Type 0
IsText true s = Unit
IsText false s = byte_at_end 1 s 13 ≡ false

byte_at_end-append :
    (back : ℕ) (s r : Bytes) (c : ℕ)
    → back ≤ length r
    → byte_at_end back (s ++ r) c ≡ byte_at_end back r c
byte_at_end-append back s r c h =
    let e : length (s ++ r) - back ≡ length s + (length r - back) =
      omega (arith, h, length-append {0} s r) in
    ap (is_byte c) (rw e (get_elem?-append s r (length r - back)))

tailer_offset-line_end :
    (crlf : Bool) (s : Bytes)
    → 0 < length s
    → IsText crlf s
    → tailer_offset (s ++ line_end crlf) ≡ length (line_end crlf)
unfolding tailer_offset
tailer_offset-line_end true s h k =
    let long : leb 2 (length (s ++ line_end true)) ≡ true =
      ground (arith, length-append {0} s (line_end true)) in
    rw long (rw (byte_at_end-append 2 s (line_end true) 13 (omega arith)) refl)
tailer_offset-line_end false s h k =
    let e : length (s ++ line_end false) - 2 ≡ length s - 1 =
      omega (arith, h, length-append {0} s (line_end false)) in
    let same : get_elem? (s ++ line_end false) (length (s ++ line_end false) - 2)
        ≡ get_elem? s (length s - 1) =
      rw e (get_elem?-append_left s (line_end false) (length s - 1) (omega (arith, h))) in
    let before : byte_at_end 2 (s ++ line_end false) 13 ≡ false = ap (is_byte 13) same ∙ k in
    ground (arith, before)

newline_at_end : (crlf : Bool) (s : Bytes) → byte_at_end 1 (s ++ line_end crlf) 10 ≡ true
newline_at_end true s = byte_at_end-append 1 s (13 ∷ 10 ∷ []) 10 (omega arith)
newline_at_end false s = byte_at_end-append 1 s (10 ∷ []) 10 (omega arith)

module _ {B : Type 0} (fm : Fmbuf B Bytes) where
  admin_unpack-line :
      (line : Bytes)
      → 0 < length line
      → byte_at_end 1 line 10 ≡ true
      → admin_unpack fm line ≡ ok (length line, some (unpack_line fm line))
  unfolding admin_unpack
  admin_unpack-line [] h k = absurd (omega (arith, h))
  admin_unpack-line (b ∷ bs) h k = rw k refl

  unpack_line-line_end :
      (crlf : Bool) (s : Bytes)
      → 0 < length s
      → length s < 256
      → All (λ c. not (c == 0) ≡ true) s
      → IsText crlf s
      → unpack_line fm (s ++ line_end crlf) ≡ read_tokens 10 (some s) (sk_admin_data_create fm)
  unfolding unpack_line
  unpack_line-line_end crlf s h short nonzero k =
      let text_len : length (s ++ line_end crlf) - tailer_offset (s ++ line_end crlf) ≡ length s =
        rw (tailer_offset-line_end crlf s h k)
          (omega (arith, length-append {0} s (line_end crlf))) in
      let some_text : (length s == 0) ≡ false = ground (arith, h) in
      let max_len : (if ltb (length s) 255 then length s else 255) ≡ length s =
        ground (arith, short) in
      rw text_len (
        rw some_text
          (rw max_len (rw (span_upto_all (λ c. not (c == 0)) s (line_end crlf) nonzero) refl)))

-- A line of at most ten tokens, parted by a space each and 255 bytes long at most, with no zero byte,
-- that ends in a line feed or in a carriage return and a line feed, is taken whole, and the command
-- is these tokens.
pub admin_unpack-join :
    {B : Type 0} (fm : Fmbuf B Bytes) (crlf : Bool) (t : Bytes) (ts : List Bytes)
    → All IsToken (t ∷ ts)
    → length (t ∷ ts) ≤ 10
    → All (λ c. not (c == 0) ≡ true) (join t ts)
    → 0 < length (join t ts)
    → length (join t ts) < 256
    → IsText crlf (join t ts)
    → admin_unpack fm (join t ts ++ line_end crlf)
      ≡ ok (
        length (join t ts) + length (line_end crlf),
        some (record {
          ignore = false;
          argc = length (t ∷ ts);
          command = t ∷ ts;
          response = fm.create 8192;
        }),
      )
unfolding sk_admin_data_create
admin_unpack-join fm crlf t ts tokens few nonzero long short text =
    let s = join t ts in
    let argc : 0 + length (t ∷ ts) ≡ length (t ∷ ts) = omega arith in
    let sz = length-append {0} s (line_end crlf) in
    admin_unpack-line fm (s ++ line_end crlf) (omega (arith, sz, long)) (newline_at_end crlf s)
    ∙ ap₂ (λ n d. ok (n, some d)) sz
        (unpack_line-line_end fm crlf s long short nonzero text
          ∙ read_tokens-join 10 t ts (sk_admin_data_create fm) tokens few
          ∙ ap
              (λ (n : ℕ). record {
                ignore = false;
                argc = n;
                command = t ∷ ts;
                response = fm.create 8192;
              })
              argc)
