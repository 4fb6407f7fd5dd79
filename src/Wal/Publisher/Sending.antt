-- ===== src/Wal/Publisher/Sending.antt =====
-- What `send_logs` and the two parts of a broadcast send, where every call succeeds and leaves the
-- publisher alone.
use atframe_utils.Base.{
  ℕ, suc, ◌≡◌, refl, ap, sym, ◌∙◌, true, some, List, [], ◌∷◌, ◌++◌, append-nil, append_assoc, arith,
  if◌then◌else◌, is_empty, if-split,
}
use atframe_utils.Wal.Types.{ResultCode, ok}
use atframe_utils.Wal.Publisher.{Publisher, PublisherVtable, Sent, sent_logs, send_logs}
use atframe_utils.Wal.Publisher.Broadcast.{pointers, broadcast_to_all, send_last, last_broadcast}

-- The calls that take logs to subscribers: one, or none if there is nothing or nobody to send to.
abbrev pub packets : {L : Type 0} → List L → List ℕ → List (Sent L)
packets [] subscribers = []
packets (log ∷ logs) [] = []
packets (log ∷ logs) (s ∷ subscribers) = sent_logs (log ∷ logs) (s ∷ subscribers) ∷ []

empty-nil : {A : Type 0} (xs : List A) → is_empty xs ≡ true → xs ≡ []
empty-nil [] e = refl
empty-nil (x ∷ xs) e = absurd (ground arith)

pointers-empty : (m : List (ℕ × ℕ)) → is_empty m ≡ true → is_empty (pointers m) ≡ true
pointers-empty [] e = refl
pointers-empty (x ∷ xs) e = absurd (ground arith)

module _ {L P C : Type 0} where
  -- The client's callback takes all logs and leaves the publisher alone.
  pub record Delivers (vt : PublisherVtable L P C) : Type 0 where
    pub send : Publisher L P C → List L → List ℕ → C → ResultCode × Publisher L P C
    pub sends : vt.send_logs ≡ some send
    pub delivers :
        (p : Publisher L P C) (logs : List L) (subscribers : List ℕ) (param : C)
        → send p logs subscribers param ≡ (ok, p)

  abbrev pub sent_more : List (Sent L) → Publisher L P C → Publisher L P C
  sent_more packets p = record p { sent = p.sent ++ packets }

  -- The publisher after a broadcast of these logs, but for the bound.
  abbrev pub delivered : List L → Publisher L P C → Publisher L P C
  delivered logs p =
      let all = pointers p.manager.subscribers in
      let removed = pointers p.gc_subscribers in
      record p {
        gc_subscribers = [];
        broadcast_hole_logs = [];
        sent =
            p.sent
            ++ (packets logs all ++ packets p.broadcast_hole_logs all)
            ++ (packets logs removed ++ packets p.broadcast_hole_logs removed);
      }

  sent_more-nil : (p : Publisher L P C) → sent_more [] p ≡ p
  sent_more-nil p = ap (λ sent. record p { sent = sent }) (append-nil p.sent)

module _ {L P C : Type 0} (vt : PublisherVtable L P C) (d : Delivers vt) where
  pub send_logs_lem :
      (logs : List L) (subscribers : List ℕ) (param : C) (p : Publisher L P C)
      → send_logs vt logs subscribers param p ≡ (ok, sent_more (packets logs subscribers) p)
  unfolding send_logs
  send_logs_lem [] ss param p = rw (send_logs, d.sends) (ap (λ q. (ok, q)) (sym (sent_more-nil p)))
  send_logs_lem (x ∷ xs) [] param p =
      rw (send_logs, d.sends) (ap (λ q. (ok, q)) (sym (sent_more-nil p)))
  send_logs_lem (x ∷ xs) (s ∷ ss) param p =
      rw (send_logs, d.sends) (d.delivers _ (x ∷ xs) (s ∷ ss) param)

  send_last_lem :
      (logs : List L) (subscribers : List ℕ) (param : C) (p : Publisher L P C)
      → send_last vt logs subscribers param p ≡ (true, sent_more (packets logs subscribers) p)
  unfolding send_last
  send_last_lem [] ss param p = ap (λ q. (true, q)) (sym (sent_more-nil p))
  send_last_lem (x ∷ xs) ss param p = rw (send_last, send_logs_lem (x ∷ xs) ss param p) refl

  pub sent_twice :
      (a b : List (Sent L)) (p : Publisher L P C)
      → sent_more b (sent_more a p) ≡ sent_more (a ++ b) p
  sent_twice a b p = ap (λ sent. record p { sent = sent }) (append_assoc p.sent a b)

  send_if_any :
      (logs : List L) (subscribers : List ℕ) (param : C) (p : Publisher L P C)
      → (if is_empty logs then p else (send_logs vt logs subscribers param p).1)
        ≡ sent_more (packets logs subscribers) p
  send_if_any [] ss param p = sym (sent_more-nil p)
  send_if_any (x ∷ xs) ss param p = ap (λ r. r.1) (send_logs_lem (x ∷ xs) ss param p)

  to_nobody :
      (a b : List L) (subscribers : List ℕ) (p : Publisher L P C)
      → is_empty subscribers ≡ true
      → p ≡ sent_more (packets a subscribers ++ packets b subscribers) p
  to_nobody a b (s ∷ ss) p e = absurd (ground arith)
  to_nobody [] [] [] p e = sym (sent_more-nil p)
  to_nobody [] (y ∷ ys) [] p e = sym (sent_more-nil p)
  to_nobody (x ∷ xs) [] [] p e = sym (sent_more-nil p)
  to_nobody (x ∷ xs) (y ∷ ys) [] p e = sym (sent_more-nil p)

  pub broadcast_to_all_lem :
      (logs : List L) (param : C) (p : Publisher L P C)
      → let all = pointers p.manager.subscribers in
        broadcast_to_all vt logs param p
        ≡ sent_more (packets logs all ++ packets p.broadcast_hole_logs all) p
  unfolding broadcast_to_all
  broadcast_to_all_lem logs param p =
      let all = pointers p.manager.subscribers in
      ap
        (λ (q : Publisher L P C).
          if is_empty all
          then p
          else (if is_empty q.broadcast_hole_logs
              then q
              else (send_logs vt q.broadcast_hole_logs all param q).1))
        (send_if_any logs all param p)
      ∙ if-split
          (λ (q : Publisher L P C).
            q ≡ sent_more (packets logs all ++ packets p.broadcast_hole_logs all) p)
          (is_empty all) (to_nobody logs p.broadcast_hole_logs all p)
          (λ _.
            send_if_any p.broadcast_hole_logs all param (sent_more (packets logs all) p)
            ∙ sent_twice (packets logs all) (packets p.broadcast_hole_logs all) p)

  pub last_broadcast_lem :
      (tries : ℕ) (logs : List L) (param : C) (p : Publisher L P C)
      → let removed = pointers p.gc_subscribers in
        last_broadcast (suc tries) vt logs param p
        ≡ record (sent_more (packets logs removed ++ packets p.broadcast_hole_logs removed) p) {
          gc_subscribers = [];
        }
  unfolding last_broadcast
  last_broadcast_lem tries logs param p =
      let removed = pointers p.gc_subscribers in
      let p0 = record p { gc_subscribers = [] } in
      if-split
        (λ (q : Publisher L P C).
          q ≡ record (sent_more (packets logs removed ++ packets p.broadcast_hole_logs removed) p) {
            gc_subscribers = [];
          })
        (is_empty p.gc_subscribers)
        (λ e.
          ap (λ gc. record p { gc_subscribers = gc }) (empty-nil p.gc_subscribers e)
          ∙ to_nobody logs p.broadcast_hole_logs removed p0 (pointers-empty p.gc_subscribers e))
        (λ _.
          rw
            (
              send_last_lem logs removed param p0,
              send_last_lem p.broadcast_hole_logs removed param
                  (sent_more (packets logs removed) p0),
            )
            (sent_twice (packets logs removed) (packets p.broadcast_hole_logs removed) p0))
