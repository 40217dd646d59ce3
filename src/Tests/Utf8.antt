-- ===== src/Tests/Utf8.antt =====
-- UTF-8 as a value of the parameter `Utf`, so that the model runs and the laws are seen to hold.
use strans.Base.{
  ℕ, ◌+◌, ◌-◌, ◌*◌, ◌/◌, ◌%◌, ◌≤◌, ◌<◌, ◌≡◌, List, [], ◌∷◌, ◌++◌, arith, ltb, leb, ◌&&◌,
  if◌then◌else◌, length, Bool, false, refl, ◌==◌, inl, inr, Bool-cases, lt→ltb,
}
use strans.Dict.Bytes.{Lacks, IsPlain}
use strans.Utf.{Utf, IsUtf, IsRune}

-- Runes outside the range are written as the replacement character.
unfoldable pub encode : ℕ → List ℕ
encode r =
    if ltb r 0x80
    then r ∷ []
    else if ltb r 0x800
    then (0xC0 + r / 64) ∷ (0x80 + r % 64) ∷ []
    else if ltb r 0x10000
    then (0xE0 + r / 4096) ∷ (0x80 + r / 64 % 64) ∷ (0x80 + r % 64) ∷ []
    else if ltb r 0x110000
    then (0xF0 + r / 262144) ∷ (0x80 + r / 4096 % 64) ∷ (0x80 + r / 64 % 64) ∷ (0x80 + r % 64) ∷ []
    else 0xEF ∷ 0xBF ∷ 0xBD ∷ []

unfoldable pub follows : ℕ → Bool
follows b = leb 0x80 b && ltb b 0xC0

-- Malformed bytes are read one by one as the replacement character.
unfoldable pub decode : List ℕ → ℕ × ℕ
decode [] = (0xFFFD, 1)
decode (a ∷ []) = if ltb a 0x80 then (a, 1) else (0xFFFD, 1)
decode (a ∷ b ∷ []) =
    if ltb a 0x80
    then (a, 1)
    else if leb 0xC0 a && ltb a 0xE0 && follows b
    then ((a - 0xC0) * 64 + (b - 0x80), 2)
    else (0xFFFD, 1)
decode (a ∷ b ∷ c ∷ []) =
    if ltb a 0x80
    then (a, 1)
    else if leb 0xC0 a && ltb a 0xE0 && follows b
    then ((a - 0xC0) * 64 + (b - 0x80), 2)
    else if leb 0xE0 a && ltb a 0xF0 && follows b && follows c
    then ((a - 0xE0) * 4096 + (b - 0x80) * 64 + (c - 0x80), 3)
    else (0xFFFD, 1)
decode (a ∷ b ∷ c ∷ d ∷ rest) =
    if ltb a 0x80
    then (a, 1)
    else if leb 0xC0 a && ltb a 0xE0 && follows b
    then ((a - 0xC0) * 64 + (b - 0x80), 2)
    else if leb 0xE0 a && ltb a 0xF0 && follows b && follows c
    then ((a - 0xE0) * 4096 + (b - 0x80) * 64 + (c - 0x80), 3)
    else if leb 0xF0 a && follows b && follows c && follows d
    then ((a - 0xF0) * 262144 + (b - 0x80) * 4096 + (c - 0x80) * 64 + (d - 0x80), 4)
    else (0xFFFD, 1)

instance abbrev pub utf8 : Utf
utf8 = record { chartorune = decode; runetochar = encode }

decode-consumes : (bs : List ℕ) → 1 ≤ (decode bs).1
unfolding decode follows
decode-consumes [] = omega arith
decode-consumes (a ∷ []) = ground arith
decode-consumes (a ∷ b ∷ []) = ground arith
decode-consumes (a ∷ b ∷ c ∷ []) = ground arith
decode-consumes (a ∷ b ∷ c ∷ d ∷ rest) = ground arith

encode-wide : (r : ℕ) → (1 ≤ length (encode r)) × (length (encode r) ≤ 4)
unfolding encode
encode-wide r = ground arith

decode_one : (r : ℕ) (rest : List ℕ) → r < 0x80 → decode (r ∷ rest) ≡ (r, 1)
unfolding decode
decode_one r [] h = ground arith
decode_one r (a ∷ []) h = ground arith
decode_one r (a ∷ b ∷ []) h = ground arith
decode_one r (a ∷ b ∷ c ∷ rest) h = ground arith

decode_two :
    (r : ℕ) (rest : List ℕ)
    → 0x80 ≤ r
    → r < 0x800
    → decode ((0xC0 + r / 64) ∷ (0x80 + r % 64) ∷ rest) ≡ (r, 2)
unfolding decode follows
decode_two r [] lo hi = ground arith
decode_two r (a ∷ []) lo hi = ground arith
decode_two r (a ∷ b ∷ rest) lo hi = ground arith

decode_three :
    (r : ℕ) (rest : List ℕ)
    → 0x800 ≤ r
    → r < 0x10000
    → decode ((0xE0 + r / 4096) ∷ (0x80 + r / 64 % 64) ∷ (0x80 + r % 64) ∷ rest) ≡ (r, 3)
unfolding decode follows
decode_three r [] lo hi = ground arith
decode_three r (a ∷ rest) lo hi = ground arith

decode_four :
    (r : ℕ) (rest : List ℕ)
    → 0x10000 ≤ r
    → r < 0x110000
    → decode (
        (0xF0 + r / 262144)
        ∷ (0x80 + r / 4096 % 64)
        ∷ (0x80 + r / 64 % 64)
        ∷ (0x80 + r % 64)
        ∷ rest)
      ≡ (r, 4)
unfolding decode follows
decode_four r rest lo hi = ground arith

decode-encode :
    (r : ℕ) (rest : List ℕ) → IsRune r → decode (encode r ++ rest) ≡ (r, length (encode r))
unfolding encode
decode-encode r rest h = elim (Bool-cases (ltb r 0x80)) [
  | inl one ↦ rw one (decode_one r rest (ground arith))
  | inr more ↦ elim (Bool-cases (ltb r 0x800)) [
    | inl two ↦ rw (more, two) (decode_two r rest (ground arith) (ground arith))
    | inr more₂ ↦ elim (Bool-cases (ltb r 0x10000)) [
      | inl three ↦ rw (more, more₂, three) (decode_three r rest (ground arith) (ground arith))
      | inr more₃ ↦
          let hi : r < 0x110000 = ground arith in
          rw (more, more₂, more₃, lt→ltb r 0x110000 hi) (decode_four r rest (ground arith) hi)
    ]
  ]
]

pub utf8-IsUtf : IsUtf utf8
utf8-IsUtf = record {
  consumes = decode-consumes;
  wide = encode-wide;
  chartorune-runetochar = decode-encode;
}

encode-plain : (r : ℕ) → r < 0x80 → encode r ≡ r ∷ []
unfolding encode
encode-plain r h = rw (lt→ltb r 0x80 h) refl

high_byte : (b c : ℕ) → c < 0x80 → 0x80 ≤ b → (b == c) ≡ false
high_byte b c h hi = ground arith

encode-Lacks : (r c : ℕ) → c < 0x80 → (r == c) ≡ false → Lacks c (encode r)
unfolding encode
encode-Lacks r c h other = elim (Bool-cases (ltb r 0x80)) [
  | inl one ↦ rw one (other, tt)
  | inr more ↦ elim (Bool-cases (ltb r 0x800)) [
    | inl two ↦ rw (more, two) (high_byte _ c h (omega arith), (high_byte _ c h (omega arith), tt))
    | inr more₂ ↦ elim (Bool-cases (ltb r 0x10000)) [
      | inl three ↦
          rw (more, more₂, three)
            (
              high_byte _ c h (omega arith),
              (high_byte _ c h (omega arith), (high_byte _ c h (omega arith), tt)),
            )
      | inr more₃ ↦ elim (Bool-cases (ltb r 0x110000)) [
        | inl four ↦
            rw (more, more₂, more₃, four)
              (
                high_byte _ c h (omega arith),
                (
                  high_byte _ c h (omega arith),
                  (high_byte _ c h (omega arith), (high_byte _ c h (omega arith), tt)),
                ),
              )
        | inr beyond ↦
            rw (more, more₂, more₃, beyond)
              (
                high_byte 0xEF c h (omega arith),
                (high_byte 0xBF c h (omega arith), (high_byte 0xBD c h (omega arith), tt)),
              )
      ]
    ]
  ]
]

pub utf8-IsPlain : IsPlain utf8
utf8-IsPlain = record { itself = encode-plain; no_other = encode-Lacks }
