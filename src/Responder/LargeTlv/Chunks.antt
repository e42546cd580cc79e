-- ===== src/Responder/LargeTlv/Chunks.antt =====
-- The chunks of `sendLargeTlvResponse` in lltdResponder/lltdBlock.c: what one answer holds, and what
-- a mapper has that asks until an answer says that it is the last.
use Prim.Native.Nat.{bit_or}
use lltdresponder.Base.{
  ℕ, zero, suc, ◌+◌, ◌-◌, ◌*◌, ◌^◌, ◌<◌, ◌≤◌, ◌≡◌, refl, sym, ◌∙◌, min, ltb, leb, if◌then◌else◌,
  true, false, Option, none, some, List, [], ◌∷◌, length, take, drop, arith, length-drop,
  take-append-drop, Bool-cases, inl, inr,
}
use lltdresponder.Base.Bits.{bit_or-low_high}
use lltdresponder.Base.Fault.{read, read_head, prepend}
use lltdresponder.Responder.Query.Response.{drop-drop}
use lltdresponder.Responder.LargeTlv.{payload_of, chunk_length, chunk_bytes}

read_head-take :
    (n : ℕ) (block : List ℕ) → n ≤ length block → read_head n block ≡ some (take n block)
read_head-take zero block h = refl
read_head-take (suc n) [] h = absurd (omega arith)
read_head-take (suc n) (x ∷ block) h = rw (read_head-take n block (omega arith)) refl

read-take :
    (block : List ℕ) (offset n : ℕ)
    → offset + n ≤ length block
    → read block offset n ≡ some (take n (drop offset block))
read-take block zero n h = read_head-take n block (omega arith)
read-take [] (suc offset) n h = absurd (omega arith)
read-take (x ∷ block) (suc offset) n h = read-take block offset n (omega arith)

-- How many bytes an answer holds, and the length field.
unfoldable pub chunk_size : ℕ → List ℕ → ℕ → ℕ
chunk_size room block offset = min room (length block - offset)

unfoldable pub length_field : ℕ → List ℕ → ℕ → ℕ
length_field room block offset =
    chunk_size room block offset + (if ltb (offset + room) (length block) then 0x8000 else 0)

pub chunk_length_lem :
    (room offset : ℕ) (block : List ℕ)
    → room < 0x8000
    → length block < 2 ^ 16
    → chunk_length room (payload_of (some block)) offset
      ≡ (chunk_size room block offset, length_field room block offset)
unfolding chunk_length chunk_size length_field
chunk_length_lem room offset block small len =
    let more : bit_or room 0x8000 ≡ 0x8000 + room = bit_or-low_high 15 1 room small in
    ground (arith, more)

pub chunk_bytes_lem :
    (offset n : ℕ) (block : List ℕ)
    → offset + n ≤ length block
    → chunk_bytes (payload_of (some block)) offset n ≡ some (take n (drop offset block))
unfolding chunk_bytes
chunk_bytes_lem offset zero block h = refl
chunk_bytes_lem offset (suc n) block h = read-take block offset (suc n) h

-- What a mapper makes of an answer: the rest follows if the highest bit of the length says so.
pub join : Option (List ℕ) → ℕ → Option (List ℕ) → Option (List ℕ)
join none len later = none
join (some bytes) len later = if leb 0x8000 len then prepend bytes later else some bytes

-- A mapper that fetches a property from an offset on, with at most so many questions.
pub fetch : ℕ → ℕ → List ℕ → ℕ → Option (List ℕ)
fetch zero room block offset = none
fetch (suc questions) room block offset =
    let (n, len) = chunk_length room (payload_of (some block)) offset in
    join (chunk_bytes (payload_of (some block)) offset n) len
      (fetch questions room block (offset + room))

fetch_step :
    (questions room offset n len : ℕ) (block bytes : List ℕ)
    → chunk_length room (payload_of (some block)) offset ≡ (n, len)
    → chunk_bytes (payload_of (some block)) offset n ≡ some bytes
    → fetch (suc questions) room block offset ≡ (
        if leb 0x8000 len
        then prepend bytes (fetch questions room block (offset + room))
        else some bytes)
unfolding fetch join
fetch_step questions room offset n len block bytes e f = rw (fetch, e, f) refl

take-all : (n : ℕ) (xs : List ℕ) → length xs ≤ n → take n xs ≡ xs
take-all zero [] h = refl
take-all zero (x ∷ xs) h = absurd (omega arith)
take-all (suc n) [] h = refl
take-all (suc n) (x ∷ xs) h = rw (take-all n xs (omega arith)) refl

some_left :
    (questions room offset : ℕ) (block : List ℕ)
    → offset ≤ length block
    → ltb (offset + room) (length block) ≡ true
    → length block ≤ offset + suc questions * room
    → 0 < questions
some_left zero room offset block o more q = ground (arith, more)
some_left (suc questions) room offset block o more q = omega arith

-- The chunks of a property of less than 2^16 bytes, fetched one after the other from an offset
-- in it, are the property from that offset on, if an answer has room for at least 1 and less
-- than 2^15 bytes, and if at least one question is asked and so many that the room of all
-- answers covers the rest.
pub fetch-drop :
    (questions room offset : ℕ) (block : List ℕ)
    → 0 < room
    → room < 0x8000
    → length block < 2 ^ 16
    → offset ≤ length block
    → length block ≤ offset + questions * room
    → 0 < questions
    → fetch questions room block offset ≡ some (drop offset block)
fetch-drop zero room offset block r r' len o q pos = absurd (omega arith)
fetch-drop (suc questions) room offset block r r' len o q pos =
    let size = chunk_size room block offset in
    let bytes = take size (drop offset block) in
    let step =
      fetch_step questions room offset size (length_field room block offset) block bytes
        (chunk_length_lem room offset block r' len)
        (chunk_bytes_lem offset size block (unfold chunk_size in omega arith)) in
    elim (Bool-cases (ltb (offset + room) (length block))) [
      | inl more ↦
          let full : size ≡ room = unfold chunk_size in ground (arith, more) in
          let flag : leb 0x8000 (length_field room block offset) ≡ true =
            unfold length_field in ground (arith, more) in
          let later =
            fetch-drop questions room (offset + room) block r r' len (ground (arith, more))
              (ground (arith, more)) (some_left questions room offset block o more q) in
          step
          ∙ rw
              (
                flag,
                later,
                full,
                sym (drop-drop room offset block),
                take-append-drop room (drop offset block),
              )
              refl
      | inr last ↦
          let flag : leb 0x8000 (length_field room block offset) ≡ false =
            unfold length_field in unfold chunk_size in ground (arith, last) in
          let all =
            take-all size (drop offset block)
              (unfold chunk_size in ground (arith, last, length-drop offset block)) in
          step ∙ rw (flag, all) refl
    ]
