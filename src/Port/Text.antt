-- ===== src/Port/Text.antt =====
-- Texts that the ports under os hand out: cut to the room that there is.
use lltdresponder.Base.{
  ℕ, zero, suc, ◌≤◌, ◌≡◌, refl, ◌==◌, ltb, if◌then◌else◌, List, [], ◌∷◌, length, take, length-take,
  arith, Option, none, some,
}
use lltdresponder.Port.{Fills}

-- The number of bytes before the first 0.
unfoldable pub strnlen : List ℕ → ℕ
strnlen [] = 0
strnlen (c ∷ cs) = let rest = strnlen cs in if c == 0 then 0 else suc rest

-- `if (len > dst_len) len = dst_len; memcpy(dst, text, len); return len;`
unfoldable pub copy_text : List ℕ → ℕ → ℕ → List ℕ × ℕ
copy_text text len dst_len =
    let cut = if ltb dst_len len then dst_len else len in (take cut text, cut)

-- The body behind the test for a buffer, which has to have room: of a text, and of the result of
-- `gethostname`, a buffer that it filled, or its failure.
unfoldable pub get_text : List ℕ → ℕ → ℕ → List ℕ × ℕ
unfolding copy_text
get_text text len zero = ([], 0)
get_text text len (suc n) = copy_text text len (suc n)

unfoldable pub get_host : Option (List ℕ) → ℕ → List ℕ × ℕ
unfolding get_text strnlen
get_host none dst_len = ([], 0)
get_host (some buffer) dst_len = get_text buffer (strnlen buffer) dst_len

strnlen-le : (cs : List ℕ) → strnlen cs ≤ length cs
unfolding strnlen
strnlen-le [] = omega arith
strnlen-le (c ∷ cs) = ground (arith, strnlen-le cs)

copy_text_fits :
    (text : List ℕ) (len n : ℕ)
    → len ≤ length text
    → (length (copy_text text len n).0 ≡ (copy_text text len n).1) × ((copy_text text len n).1 ≤ n)
unfolding copy_text
copy_text_fits text len n h =
    let cut = if ltb n len then n else len in
    let small : (cut ≤ n) × (cut ≤ len) = ground arith in
    (omega (arith, length-take cut text, small.1, h), small.0)

pub get_text-Fills : (text : List ℕ) (len : ℕ) → len ≤ length text → Fills (get_text text len)
unfolding get_text
get_text-Fills text len h zero = (refl, omega arith)
get_text-Fills text len h (suc n) = copy_text_fits text len (suc n) h

pub get_host-Fills : (o : Option (List ℕ)) → Fills (get_host o)
unfolding get_host
get_host-Fills none n = (refl, omega arith)
get_host-Fills (some buffer) n = get_text-Fills buffer (strnlen buffer) (strnlen-le buffer) n

abbrev pub responder_name : List ℕ
responder_name = 76 ∷ 76 ∷ 84 ∷ 68 ∷ 32 ∷ 82 ∷ 101 ∷ 115 ∷ 112 ∷ 111 ∷ 110 ∷ 100 ∷ 101 ∷ 114 ∷ []

abbrev pub support_text : List ℕ
support_text =
    104 ∷ 116 ∷ 116 ∷ 112 ∷ 115 ∷ 58 ∷ 47 ∷ 47 ∷ 101 ∷ 120 ∷ 97 ∷ 109 ∷ 112 ∷ 108 ∷ 101 ∷ 46 ∷ 105
    ∷ 110 ∷ 118 ∷ 97 ∷ 108 ∷ 105 ∷ 100 ∷ 47 ∷ 115 ∷ 117 ∷ 112 ∷ 112 ∷ 111 ∷ 114 ∷ 116 ∷ []
