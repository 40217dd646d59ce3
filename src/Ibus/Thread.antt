-- ===== src/Ibus/Thread.antt =====
-- ibus.c: `ibusthread` goes on, whatever libdbus and the clients do.
use strans.Base.{arith, length, refl, List, [], ◌∷◌, ℕ}
use strans.Ibus.Answers.{dispatch-IsValid}
use strans.Ibus.Loop.{
  Tables, Happens, IsBounded, Polled, handle_loop-Polled, poll_set-AllSlots, for_each-Grows,
  dispatch_all, ibus_round, ibusthread,
}
use strans.Ibus.Watches.{poll_set}
use strans.Ibus.Watches.Laws.{length-keep}
use strans.Ibus.Watches.Prune.{pruneconns-keep}
use strans.Ibus.{Bus, Message, Outside}
use strans.Im.Valid.{IsValid}
use strans.Key.Valid.{AllFit}
use strans.Lang.{Lang}
use strans.Run.{◌>>=◌, Returns, bind_Returns, Option_Returns}
use strans.Utf.{Utf}

-- What holds between the rounds.
abbrev pub Steady : ⦃u : Utf⦄ → Tables → Bus → Type 0
Steady t b = IsBounded t × IsValid b.im

module _ ⦃u : Utf⦄ (out : Outside) (langs : List Lang) (fits : AllFit langs) where
  dispatch_all-IsValid :
      (messages : ℕ → List Message) (cs : List ℕ) (b : Bus)
      → IsValid b.im
      → Returns (dispatch_all out langs messages cs b) λ r. IsValid r.0.im
  unfolding dispatch_all
  dispatch_all-IsValid messages [] b v = (_, refl, v)
  dispatch_all-IsValid messages (c ∷ cs) b v =
      bind_Returns (λ r. IsValid r.0.im) (λ r. IsValid r.0.im)
        (dispatch-IsValid out langs fits (messages c) b v)
        λ r w.
          bind_Returns (λ r. IsValid r.0.im) (λ r. IsValid r.0.im)
            (dispatch_all-IsValid messages cs r.0 w) λ r' w'. (_, refl, w')

  ibus_round-Steady :
      (h : Happens) (t : Tables) (b : Bus)
      → Steady t b
      → Returns (ibus_round out langs h t b) λ r. Steady r.0 r.1
  unfolding ibus_round
  ibus_round-Steady h t b (bounded, v) =
      Option_Returns h.revents _ (λ _. (_, refl, (bounded, v)))
        λ revs _.
          bind_Returns (λ r. Polled (length t.watches) r.0) _
            (handle_loop-Polled (length t.watches) h.callbacks (poll_set h.info t.watches 0 0) revs
              t (poll_set-AllSlots h.info t.watches)
              (record {
                watches = record { room = bounded.watches; kept = omega arith };
                conns = bounded.conns;
              }))
            λ (t', done) p.
              bind_Returns (λ r. IsValid r.0.im) _ (dispatch_all-IsValid h.messages t'.conns b v)
                λ r w.
                  rw (pruneconns-keep h.connected t'.conns, ◌>>=◌)
                    (
                      _,
                      refl,
                      (
                        record {
                          watches =
                              (for_each-Grows _ h.unref _ _ (
                                for_each-Grows _ h.dispatching t'.conns t'.watches p.watches)).room;
                          conns = omega (arith, length-keep h.connected t'.conns, p.conns);
                        },
                        w,
                      ),
                    )

  -- If every language has a map that fits and a matching pair of handlers, the state is valid,
  -- and the two tables are within their arrays, then `ibusthread` gets through every finite
  -- sequence of rounds, whatever watches and connections libdbus adds or removes while a watch
  -- is handled, whatever watches it adds or removes while messages are dispatched or a
  -- connection is let go, whatever messages come and whichever connections are lost: no call of
  -- `die`, no entry of the poll set names a slot outside the table, no index outside an array.
  -- The tables are within their arrays (32 watches, 16 connections) and the state is valid
  -- again.
  pub ibusthread-Steady :
      (hs : List Happens) (t : Tables) (b : Bus)
      → IsBounded t
      → IsValid b.im
      → Returns (ibusthread out langs hs t b) λ r. Steady r.0 r.1
  unfolding ibusthread
  ibusthread-Steady [] t b bounded v = (_, refl, (bounded, v))
  ibusthread-Steady (h ∷ hs) t b bounded v =
      bind_Returns _ _ (ibus_round-Steady h t b (bounded, v))
        λ r s. ibusthread-Steady hs r.0 r.1 s.0 s.1
