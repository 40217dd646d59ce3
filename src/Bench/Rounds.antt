-- ===== src/Bench/Rounds.antt =====
-- bench/main.c with srv.c and strans.c: the benchmark and the engine, key after key.
use strans.Base.{
  ℕ, zero, suc, ◌+◌, ◌%◌, ◌*◌, ◌/◌, ◌≡◌, refl, sym, ap, ◌∙◌, true, false, Bool, List, [], ◌∷◌, ◌++◌,
  append-nil, some, arith, ==_iff, leb, length, drop, drop-append,
}
use strans.Bench.Load.{IsRoomy, load_loop-IsRoomy}
use strans.Bench.{
  Key, sendkey, readresp, events, written, serve, send_keys, iterate, main, no_keys, loadkeys,
}
use strans.Client.{clientthread}
use strans.Im.Valid.{IsValid}
use strans.Im.{Im}
use strans.Key.Valid.{AllFit}
use strans.Lang.{Lang}
use strans.Run.{Returns, bind_Returns, ok, ◌>>=◌}
use strans.Str.{Str}
use strans.Thread.Responds.{Responds, round-Responds}
use strans.Thread.Safe.{response_frame}
use strans.Thread.{Keyreq, Output, imthread, response}
use strans.Utf.{Utf, IsUtf}

-- The key as the server reads it from the four bytes.
abbrev request : ℕ → Key → Keyreq
request fd key = record {
  fd = fd;
  ks = key.k % 256 + key.k / 256 % 256 * 256;
  mods = key.mods % 256;
}

-- A state from which the benchmark goes on: everything it was sent is read.
abbrev pub InStep : ⦃u : Utf⦄ → Im × List ℕ → Type 0
InStep r = IsValid r.0 × (r.1 ≡ [])

module _ ⦃u : Utf⦄ where
  one_reply :
      (fd : ℕ) (im : Im) (r : Im × Output)
      → Responds fd r
      → (verdict : Bool) × (text : Str) × (written fd (r.1 ∷ []) ≡ response verdict text)
  unfolding written
  one_reply fd im r p =
      (p.verdict, p.text, rw (p.reply, written, (==_iff fd fd).1 refl) (append-nil _))

  module _ (laws : IsUtf u) where
    readresp-response :
        (verdict : Bool) (text : Str) → readresp (response verdict text) ≡ ok (some [])
    unfolding readresp
    readresp-response verdict text =
        let (bs, frame, few) = response_frame laws verdict text in
        let fits : leb (length bs + 2) 256 ≡ true = ground (arith, few) in
        let whole : leb (length bs) (length bs) ≡ true = ground arith in
        let none_left : drop (length bs) bs ≡ [] =
          ap (drop (length bs)) (sym (append-nil bs)) ∙ drop-append bs [] in
        rw (frame, readresp, fits, whole, none_left) refl

    module _ (langs : List Lang) (h : AllFit langs) (fd : ℕ) where
      pub serve-Returns :
          (key : Key) (im : Im)
          → IsValid im
          → Returns
              (serve langs fd (sendkey key) im)
              λ r. IsValid r.0 × ((verdict : Bool) × (text : Str) × (r.1 ≡ response verdict text))
      unfolding serve sendkey events clientthread imthread
      serve-Returns key im v =
          let (r, run, p) = round-Responds langs (request fd key) im h v in
          rw (run, ◌>>=◌) (_, refl, (p.valid, one_reply fd im r p))

      send_keys-InStep :
          (keys : List Key) (im : Im) (left : List ℕ)
          → InStep (im, left)
          → Returns (send_keys langs fd keys im left) InStep
      unfolding send_keys
      send_keys-InStep [] im left s = (_, refl, s)
      send_keys-InStep (key ∷ keys) im left (v, none_left) =
          let ((im', bytes), run, (v', (verdict, text, reply))) = serve-Returns key im v in
          let read : readresp (left ++ bytes) ≡ ok (some []) =
            rw (none_left, reply) (readresp-response verdict text) in
          rw (run, ◌>>=◌, read, ◌>>=◌) (send_keys-InStep keys im' [] (v', refl))

      iterate-InStep :
          (niter : ℕ) (keys : List Key) (im : Im) (left : List ℕ)
          → InStep (im, left)
          → Returns (iterate langs fd niter keys im left) InStep
      unfolding iterate
      iterate-InStep zero keys im left s = (_, refl, s)
      iterate-InStep (suc niter) keys im left s =
          bind_Returns InStep InStep (send_keys-InStep keys im left s)
            λ r s'. iterate-InStep niter keys r.0 r.1 s'

      -- With a lawful UTF-8 codec, languages whose maps fit, and a valid state of the
      -- engine, the benchmark gets through every file that can be opened, any number of
      -- times over: its array has room for each key, the engine answers each key, and the
      -- benchmark reads each response to its last byte and within its buffer, so that it
      -- never fails and at the end nothing is left on its socket.
      pub main-InStep :
          (file : List ℕ) (niter : ℕ) (im : Im)
          → IsValid im
          → Returns (main langs fd (some file) niter im) InStep
      unfolding main loadkeys
      main-InStep file niter im v =
          bind_Returns IsRoomy InStep (load_loop-IsRoomy false file no_keys (omega arith))
            λ ks _. iterate-InStep niter ks.keys im [] (v, refl)
