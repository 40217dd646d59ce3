-- ===== src/Ko/Syllables.antt =====
-- ko.c: `compose` and `decompose` are inverse to each other on the Hangul syllables.
use strans.Base.{ℕ, ◌+◌, ◌-◌, ◌*◌, ◌/◌, ◌%◌, ◌≤◌, ◌<◌, ◌≡◌, true, arith}
use strans.Ko.Letters.{letters, syllable}
use strans.Ko.{compose, decompose, issyl}

pub compose_value :
    (c j jo : ℕ) → c < 19 → j < 21 → jo < 28 → compose c j jo ≡ 0xAC00 + (c * 588 + j * 28 + jo)
unfolding compose
compose_value c j jo hc hj hjo = omega arith

-- For a lead below 19, a vowel below 21 and a final below 28, `compose` gives a syllable, and
-- `decompose` gives the three parts back.
pub decompose-compose :
    (c j jo : ℕ)
    → c < 19
    → j < 21
    → jo < 28
    → (issyl (compose c j jo) ≡ true) × (decompose (compose c j jo) ≡ (c, j, jo))
unfolding issyl decompose
decompose-compose c j jo hc hj hjo = (ground (arith, compose_value c j jo hc hj hjo), parts)
  where
    parts : decompose (compose c j jo) ≡ (c, j, jo)
    parts = rw (compose_value c j jo hc hj hjo) (ground arith)

pub letters-compose :
    (c j jo : ℕ) → c < 19 → j < 21 → jo < 28 → letters (compose c j jo) ≡ syllable c j jo
unfolding letters
letters-compose c j jo hc hj hjo =
    let lead : (0xAC00 + (c * 588 + j * 28 + jo) - 0xAC00) / 588 ≡ c = omega arith in
    let vow : ((0xAC00 + (c * 588 + j * 28 + jo) - 0xAC00) / 28) % 21 ≡ j = omega arith in
    let fin : (0xAC00 + (c * 588 + j * 28 + jo) - 0xAC00) % 28 ≡ jo = omega arith in
    rw ((decompose-compose c j jo hc hj hjo).0, compose_value c j jo hc hj hjo, lead, vow, fin)

-- For a rune that `issyl` accepts, `decompose` gives a lead below 19, a vowel below 21 and a
-- final below 28, and `compose` gives the rune back.
pub compose-decompose :
    (r : ℕ)
    → issyl r ≡ true
    → let (c, j, jo) = decompose r in (c < 19) × (j < 21) × (jo < 28) × (compose c j jo ≡ r)
unfolding issyl decompose compose
compose-decompose r h =
    let lo : 0xAC00 ≤ r = ground arith in
    let hi : r < 0xAC00 + 11172 = ground arith in
    (omega arith, omega arith, omega arith, omega arith)

pub letters-decompose :
    (r : ℕ) → issyl r ≡ true → let (c, j, jo) = decompose r in letters r ≡ syllable c j jo
unfolding letters decompose
letters-decompose r h = rw h
