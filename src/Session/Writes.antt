-- ===== src/Session/Writes.antt =====
-- The outgoing queue of a session (server/src/Session.cpp): order, and one write at a time.
use mathlib.Core.List.{append_assoc, append-nil}
use net_pixeld.Prelude.{
  ℕ, ◌≡◌, ◌≢◌, refl, sym, ap, ap₂, subst, ◌∙◌, Bool, true, false, List, [], ◌∷◌, ◌++◌, arith, Text,
  take,
}
use net_pixeld.Prelude.Outcome.{Outcome, ok, throw, crash}
use net_pixeld.Prelude.Exec.{Exec, continue, continue-ok}
use net_pixeld.Session.{Session, new_session, post, run_posted, on_write, enqueue}

-- What happens to the writing side of a session: a call of `send`, a turn of the strand, the
-- completion of a write.
pub data Move : Type 0 where
  posts : Text → Move
  turns : Move
  completes : Bool → Move

abbrev pub unit : Outcome Bool × Session → Outcome (Unit {0}) × Session
unit (ok _, s) = (ok tt, s)
unit (throw x, s) = (throw x, s)
unit (crash, s) = (crash, s)

pub unit-state : (r : Outcome Bool × Session) → (unit r).1 ≡ r.1
unit-state (ok _, s) = refl
unit-state (throw x, s) = refl
unit-state (crash, s) = refl

unfoldable pub move : Move → Exec Session (Unit {0})
unfolding post run_posted on_write
move (posts text) s = (ok tt, post text s)
move turns s = run_posted s
move (completes ec) s = unit (on_write ec s)

unfoldable pub moves : List Move → Exec Session (Unit {0})
unfolding move
moves [] s = (ok tt, s)
moves (m ∷ rest) s = continue (move m s) (λ _. moves rest)

-- the texts sent, in order
abbrev pub texts : List Move → List Text
texts [] = []
texts (posts text ∷ rest) = text ∷ texts rest
texts (_ ∷ rest) = texts rest

-- One write is in progress exactly while a text is queued, and it writes the front; none is once a
-- write has failed.
pub record IsOrderly (s : Session) : Type 0 where
  pub healthy : s.broken ≡ false → s.writes ≡ take 1 s.outgoing
  pub stopped : s.broken ≡ true → (s.writes ≡ []) × (s.outgoing ≢ [])

abbrev pub pending : Session → List Text
pending s = s.sent ++ (s.outgoing ++ s.posted)

-- the text that one move sends
abbrev text_of : Move → List Text
text_of (posts text) = text ∷ []
text_of _ = []

pub record Keeps (m : Move) (s : Session) : Type 0 where
  pub returns : (move m s).0 ≡ ok tt
  pub orderly : IsOrderly (move m s).1
  pub order : pending (move m s).1 ≡ pending s ++ text_of m

post-Keeps : (text : Text) (s : Session) → IsOrderly s → Keeps (posts text) s
unfolding move
post-Keeps text s h = record {
  returns = refl;
  orderly = record { healthy = h.healthy; stopped = h.stopped };
  order = simp append_assoc;
}

pub enqueue_queues :
    (text : Text) (s : Session)
    → ((enqueue text s).1.sent ≡ s.sent)
      × ((enqueue text s).1.outgoing ≡ s.outgoing ++ text ∷ [])
      × ((enqueue text s).1.posted ≡ s.posted)
unfolding enqueue
enqueue_queues text s = ground arith

run-order : (p : List Text) (s : Session) → s.posted ≡ p → pending (run_posted s).1 ≡ pending s
unfolding run_posted
run-order [] s e = rw (e, run_posted)
run-order (text ∷ rest) s e =
    let (sent, outgoing, posted) = enqueue_queues text (record s { posted = rest }) in
    let queues = ap₂ ◌++◌ outgoing posted ∙ append_assoc s.outgoing (text ∷ []) rest in
    rw (e, run_posted) (ap₂ ◌++◌ sent queues)

run-Keeps : (s : Session) → IsOrderly s → Keeps turns s
unfolding move
run-Keeps s h = record {
  returns = ground arith;
  orderly = record {
    healthy = λ b. ground (arith, h.healthy);
    stopped = λ b. ground (arith, h.stopped);
  };
  order = run-order s.posted s refl ∙ sym (append-nil (pending s));
}

pub on_write_queues :
    (s : Session) (text front : Text) (more rest : List Text)
    → s.writes ≡ text ∷ more
    → s.outgoing ≡ front ∷ rest
    → ((on_write false s).1.sent ≡ s.sent ++ text ∷ [])
      × ((on_write false s).1.outgoing ≡ rest)
      × ((on_write false s).1.posted ≡ s.posted)
unfolding on_write
on_write_queues s text front more rest e f = ground arith

complete-order :
    (ec : Bool) (s : Session) (w o : List Text)
    → s.writes ≡ w
    → s.outgoing ≡ o
    → IsOrderly s
    → pending (on_write ec s).1 ≡ pending s
unfolding on_write
complete-order ec s [] o e f h = rw (e, on_write)
complete-order ec s (text ∷ more) [] e f h = ground (arith, h.healthy, h.stopped)
complete-order true s (text ∷ more) (front ∷ rest) e f h = rw (e, on_write)
complete-order false s (text ∷ more) (front ∷ rest) e f h =
    let (sent, outgoing, posted) = on_write_queues s text front more rest e f in
    let same : text ≡ front = ground (arith, h.healthy, h.stopped) in
    ap₂ ◌++◌ sent (ap₂ ◌++◌ outgoing posted)
    ∙ append_assoc s.sent (text ∷ []) (rest ++ s.posted)
    ∙ ap (◌++◌ s.sent) (ap (λ t. t ∷ (rest ++ s.posted)) same ∙ ap (λ o. o ++ s.posted) (sym f))

complete-Keeps : (ec : Bool) (s : Session) → IsOrderly s → Keeps (completes ec) s
unfolding move
complete-Keeps ec s h = record {
  returns = ground (arith, h.healthy, h.stopped);
  orderly = record {
    healthy = λ b. ground (arith, h.healthy, h.stopped);
    stopped = λ b. ground (arith, h.stopped, h.healthy);
  };
  order =
      ap pending (unit-state (on_write ec s))
      ∙ complete-order ec s s.writes s.outgoing refl refl h
      ∙ sym (append-nil (pending s));
}

pub move-Keeps : (m : Move) (s : Session) → IsOrderly s → Keeps m s
move-Keeps (posts text) s h = post-Keeps text s h
move-Keeps turns s h = run-Keeps s h
move-Keeps (completes ec) s h = complete-Keeps ec s h

pub run_posted-IsOrderly : (s : Session) → IsOrderly s → IsOrderly (run_posted s).1
unfolding move
run_posted-IsOrderly s h = (run-Keeps s h).orderly

pub on_write-IsOrderly : (ec : Bool) (s : Session) → IsOrderly s → IsOrderly (on_write ec s).1
unfolding move
on_write-IsOrderly ec s h =
    subst IsOrderly (unit-state (on_write ec s)) (complete-Keeps ec s h).orderly

-- What leaves the writing side alone.
pub IsOrderly-same :
    (s t : Session)
    → t.writes ≡ s.writes
    → t.outgoing ≡ s.outgoing
    → t.broken ≡ s.broken
    → IsOrderly s
    → IsOrderly t
IsOrderly-same s t w o b h = record {
  healthy = λ e. w ∙ h.healthy (sym b ∙ e) ∙ ap (take 1) (sym o);
  stopped = λ e. let (none, some) = h.stopped (sym b ∙ e) in (w ∙ none, λ q. some (sym o ∙ q));
}

texts-cons : (m : Move) (ms : List Move) → texts (m ∷ ms) ≡ text_of m ++ texts ms
texts-cons (posts text) ms = refl
texts-cons turns ms = refl
texts-cons (completes ec) ms = refl

-- From an orderly session, whatever the sends, turns of the strand and completions of writes:
-- nothing crashes, at most one write is in progress, and what the socket took, then what is queued,
-- then what is posted are the texts sent, in order.
pub moves-IsOrderly :
    (ms : List Move) (s : Session)
    → IsOrderly s
    → ((moves ms s).0 ≡ ok tt)
      × IsOrderly (moves ms s).1
      × (pending (moves ms s).1 ≡ pending s ++ texts ms)
unfolding moves
moves-IsOrderly [] s h = (refl, h, sym (append-nil (pending s)))
moves-IsOrderly (m ∷ ms) s h =
    let k = move-Keeps m s h in
    let (returned, orderly, order) = moves-IsOrderly ms (move m s).1 k.orderly in
    let rest = continue-ok (move m s) (λ _. moves ms) tt k.returns in
    let front = ap (λ p. p ++ texts ms) k.order ∙ append_assoc (pending s) (text_of m) (texts ms) in
    rw rest (returned, orderly, order ∙ front ∙ ap (◌++◌ (pending s)) (sym (texts-cons m ms)))

pub new-IsOrderly : (client_id : ℕ) → IsOrderly (new_session client_id)
new-IsOrderly client_id = record { healthy = λ b. refl; stopped = λ b. cc }

take_none {ℓ} : {A : Type ℓ} (xs : List A) → take 1 xs ≡ [] → xs ≡ []
take_none [] e = refl
take_none (x ∷ xs) e = cc

-- On a new session, where no write has failed and nothing is posted or being written, the socket has
-- taken the texts of all sends, in order.
pub moves-delivered :
    (client_id : ℕ) (ms : List Move)
    → (moves ms (new_session client_id)).1.broken ≡ false
    → (moves ms (new_session client_id)).1.posted ≡ []
    → (moves ms (new_session client_id)).1.writes ≡ []
    → (moves ms (new_session client_id)).1.sent ≡ texts ms
moves-delivered client_id ms healthy posted idle =
    let s = (moves ms (new_session client_id)).1 in
    let (_, orderly, order) =
      moves-IsOrderly ms (new_session client_id) (new-IsOrderly client_id) in
    let empty : s.outgoing ≡ [] = take_none s.outgoing (sym (orderly.healthy healthy) ∙ idle) in
    sym (append-nil s.sent) ∙ ap (◌++◌ s.sent) (sym (ap₂ ◌++◌ empty posted)) ∙ order
