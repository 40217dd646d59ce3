-- ===== src/Client/Frames.antt =====
-- srv.c and gtk/main.c: each end of the socket reads what the other has written.
use strans.Hash.{until_zero}
use strans.Base.{
  zero, suc, none, ◌==◌, ℕ, ◌+◌, ◌*◌, ◌/◌, ◌%◌, ◌≤◌, ◌<◌, ◌≡◌, refl, ap, ap₂, Bool, true, false,
  List, [], ◌∷◌, ◌++◌, Option, some, arith, length, length-append, take, drop-append, ltb, leb,
  ◌&&◌, if◌then◌else◌,
}
use strans.Client.{clientthread, request_bytes, readresp}
use strans.Str.{Str}
use strans.Thread.Safe.{response_frame}
use strans.Thread.{response}
use strans.Utf.{Utf, IsUtf}

-- For a key below 65536 and modifiers below 256, the four bytes that a client writes are read by
-- the server as a request with that key and those modifiers, and the bytes behind them as the
-- requests that follow.
pub clientthread-request_bytes :
    (fd key mods : ℕ) (rest : List ℕ)
    → key < 65536
    → mods < 256
    → clientthread fd (request_bytes key mods ++ rest)
      ≡ record { fd = fd; ks = key; mods = mods } ∷ clientthread fd rest
unfolding clientthread request_bytes
clientthread-request_bytes fd key mods rest h k =
    let e : key % 256 + key / 256 % 256 * 256 ≡ key = omega arith in
    let e' : mods % 256 ≡ mods = omega arith in
    ap₂ (λ ks m. record { fd = fd; ks = ks; mods = m } ∷ clientthread fd rest) e e'

pub take-append : (xs ys : List ℕ) → take (length xs) (xs ++ ys) ≡ xs
take-append [] ys = take_zero ys
  where
    take_zero : (ys : List ℕ) → take {A = ℕ} 0 ys ≡ []
    take_zero ys = refl
take-append (x ∷ xs) ys = ap (◌∷◌ x) (take-append xs ys)

-- A string of C: the bytes in front of the first zero byte.
unfoldable pub c_string : List ℕ → List ℕ
c_string [] = []
c_string (zero ∷ bs) = []
c_string (suc b ∷ bs) = suc b ∷ c_string bs

-- The string in these bytes, if it is not empty.
abbrev pub said : List ℕ → Option (List ℕ)
said bs = if length (c_string bs) == 0 then none else some (c_string bs)

pub until_zero-c_string : (bs : List ℕ) → until_zero bs ≡ c_string bs
unfolding until_zero c_string
until_zero-c_string [] = refl
until_zero-c_string (zero ∷ bs) = ground arith
until_zero-c_string (suc b ∷ bs) = ground (arith, until_zero-c_string bs)

-- What a client with a buffer of `sz` bytes makes of a response with the text `bs`.
abbrev pub Reads : ℕ → ℕ → List ℕ → List ℕ → Option (ℕ × List ℕ × List ℕ) → Type 0
Reads sz verdict bs rest r =
    (length bs < sz → r ≡ some (verdict, bs, rest))
    × (sz ≤ length bs → r ≡ some (verdict, [], bs ++ rest))

readresp-Reads :
    (sz verdict : ℕ) (bs rest : List ℕ)
    → 0 < sz
    → Reads sz verdict bs rest (readresp sz (verdict ∷ length bs ∷ (bs ++ rest)))
unfolding readresp
readresp-Reads sz verdict [] rest h = (λ short. refl, λ long. refl)
readresp-Reads sz verdict (b ∷ bs) rest h = (
  (λ short.
      let e : (ltb 0 (length (b ∷ bs)) && ltb (length (b ∷ bs)) sz) ≡ true = ground arith in
      let e' : leb (length (b ∷ bs)) (length ((b ∷ bs) ++ rest)) ≡ true =
        ground (arith, length-append (b ∷ bs) rest) in
      rw (e, e')
        (ap₂ (λ t d. some (verdict, t, d)) (take-append (b ∷ bs) rest)
          (drop-append (b ∷ bs) rest))),
  λ long.
      let e : (ltb 0 (length (b ∷ bs)) && ltb (length (b ∷ bs)) sz) ≡ false = ground arith in
      rw e refl,
)

-- With a lawful UTF-8 codec, and a client buffer that is not empty, a response of the engine is
-- the verdict, the length of a text, and that text; the GTK client reads the verdict, and the
-- text exactly if it is shorter than the buffer, with what follows left to read; of a text that
-- is not shorter it reads nothing, and leaves its bytes in front of what follows.
pub readresp-response :
    ⦃u : Utf⦄
    → IsUtf u
    → (r : Bool) (text : Str) (rest : List ℕ) (sz : ℕ) → 0 < sz
    → (bs : List ℕ) × (response r text ≡ (if r then 1 else 0) ∷ length bs ∷ bs)
      × Reads sz (if r then 1 else 0) bs rest (readresp sz (response r text ++ rest))
readresp-response laws r text rest sz h =
    let (bs, e, _) = response_frame laws r text in
    (bs, e, rw e (readresp-Reads sz (if r then 1 else 0) bs rest h))
