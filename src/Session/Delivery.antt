-- ===== src/Session/Delivery.antt =====
-- A session whose socket works delivers what it was given (server/src/Session.cpp).
use mathlib.Core.List.{append-nil}
use net_pixeld.Prelude.{
  ◌≡◌, refl, sym, ap, ap₂, ◌∙◌, ◌⊎◌, inl, inr, false, List, [], ◌∷◌, ◌++◌, All, arith, Text,
}
use net_pixeld.Prelude.Exec.{continue-ok}
use net_pixeld.Session.{Session, run_posted, on_write, enqueue}
use net_pixeld.Session.Writes.{
  Move, turns, completes, move, moves, texts, pending, IsOrderly, move-Keeps,
}

-- A turn of the strand or a write that succeeds: nothing new is sent and nothing fails.
abbrev pub IsProgress : List Move → Type 0
IsProgress = All (λ m. (m ≡ turns) ⊎ (m ≡ completes false))

turn_lem :
    (s : Session) (text : Text) (rest : List Text)
    → s.posted ≡ text ∷ rest
    → ((move turns s).1.posted ≡ rest)
      × ((move turns s).1.outgoing ≡ s.outgoing ++ text ∷ [])
      × ((move turns s).1.broken ≡ s.broken)
unfolding move run_posted enqueue
turn_lem s text rest e = ground (arith, e)

complete_lem :
    (s : Session) (front : Text) (rest : List Text)
    → IsOrderly s
    → s.broken ≡ false
    → s.outgoing ≡ front ∷ rest
    → ((move (completes false) s).1.posted ≡ s.posted)
      × ((move (completes false) s).1.outgoing ≡ rest)
      × ((move (completes false) s).1.broken ≡ false)
unfolding move on_write
complete_lem s front rest h healthy e = ground (arith, e, healthy, h.healthy)

-- the schedule after its first move
after_move :
    (m : Move) (ms : List Move) (s : Session)
    → IsOrderly s
    → texts (m ∷ []) ≡ []
    → pending (move m s).1 ≡ pending s
    → (moves ms (move m s).1).1.sent ≡ pending (move m s).1
    → (moves (m ∷ ms) s).1.sent ≡ pending s
unfolding moves
after_move m ms s h none same e =
    let k = move-Keeps m s h in
    ap (λ r. r.1.sent) (continue-ok (move m s) (λ _. moves ms) tt k.returns) ∙ e ∙ same

delivers :
    (p o : List Text) (s : Session)
    → IsOrderly s
    → s.broken ≡ false
    → s.posted ≡ p
    → s.outgoing ≡ o
    → (ms : List Move) × IsProgress ms × ((moves ms s).1.sent ≡ pending s)
unfolding moves
delivers [] [] s h healthy e f = ([], tt, sym (ap (◌++◌ s.sent) (ap₂ ◌++◌ f e) ∙ append-nil s.sent))
delivers [] (front ∷ rest) s h healthy e f =
    let m = completes false in
    let (posted, outgoing, works) = complete_lem s front rest h healthy f in
    let k = move-Keeps m s h in
    let (ms, fine, sent) = delivers [] rest (move m s).1 k.orderly works (posted ∙ e) outgoing in
    (m ∷ ms, (inr refl, fine), after_move m ms s h refl (k.order ∙ append-nil (pending s)) sent)
delivers (text ∷ rest) o s h healthy e f =
    let (posted, outgoing, same) = turn_lem s text rest e in
    let k = move-Keeps turns s h in
    let (ms, fine, sent) =
      delivers rest (o ++ text ∷ []) (move turns s).1 k.orderly (same ∙ healthy) posted
        (outgoing ∙ ap (λ q. q ++ text ∷ []) f) in
    (
      turns ∷ ms,
      (inl refl, fine),
      after_move turns ms s h refl (k.order ∙ append-nil (pending s)) sent,
    )

-- From an orderly session whose writes have not failed, some turns of the strand and successful
-- writes lead to a state in which the socket has taken all that was sent, queued and posted, in
-- order.
pub delivered :
    (s : Session)
    → IsOrderly s
    → s.broken ≡ false
    → (ms : List Move) × IsProgress ms × ((moves ms s).1.sent ≡ pending s)
delivered s h healthy = delivers s.posted s.outgoing s h healthy refl refl
