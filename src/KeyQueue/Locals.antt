-- ===== src/KeyQueue/Locals.antt =====
-- What each operation of internal/runtime/keyqueue/queue.go does to one queue.
use kafka_simulate_rule.KeyQueue.{
  key_of, releasing, finished, select_queue, add_submitter, working, selected, registered, leaving,
  slotted, idle, [], is_empty_list, false, finish_queue, QueuedItem, selectable, Thread, Queue,
  finish_submit,
}
use kafka_simulate_rule.Prelude.{
  All-append, length-append, subst, ◌++◌, ap, ◌∙◌, sum_of-ge, sym, ◌<◌, suc, inl, arith, inr, refl,
  ◌∷◌, some, length, Bool-cases, get_elem?, Bool, ◌≤◌, true, ◌≡◌, List, ℕ,
}
use kafka_simulate_rule.KeyQueue.Invariant.{AllOf, bit, holds, works, Local, IsGood}
use kafka_simulate_rule.KeyQueue.Registration.{bit_ne, bit_self}

is_empty_list-eq-true : (xs : List QueuedItem) → is_empty_list xs ≡ true → xs ≡ []
is_empty_list-eq-true [] h = refl
is_empty_list-eq-true (x ∷ xs) h = cc h

is_empty_list-eq-false : (xs : List QueuedItem) → is_empty_list xs ≡ false → 1 ≤ length xs
is_empty_list-eq-false [] h = cc h
is_empty_list-eq-false (x ∷ xs) h = omega arith

-- A queue that `finishSubmit` or `finishEvent` deletes is not in use.
finish_submit-dead :
    (q : Queue)
    → (finish_submit q).live ≡ false
    → (q.live ≡ false → ⊥)
    → ((finish_submit q).submitters ≡ 0) × (q.processing ≡ false) × (q.items ≡ [])
unfolding finish_submit
finish_submit-dead q d live = elim (Bool-cases q.live) [
  | inr e ↦ absurd (live e)
  | inl e ↦ (
    ground (arith, d, e),
    ground (arith, d, e),
    is_empty_list-eq-true q.items (ground (arith, d, e)),
  )
]

finish_queue-dead :
    (q : Queue)
    → (finish_queue q).live ≡ false
    → (q.live ≡ false → ⊥)
    → (q.submitters ≡ 0) × (◌≡◌ {A = Bool} false false) × (q.items ≡ [])
finish_queue-dead q d live = elim (Bool-cases q.live) [
  | inr e ↦ absurd (live e)
  | inl e ↦ (ground (arith, d, e), refl, is_empty_list-eq-true q.items (ground (arith, d, e)))
]

selectable-eq-true :
    (q : Queue)
    → selectable q ≡ true
    → (q.live ≡ true) × (q.processing ≡ false) × (1 ≤ length q.items)
selectable-eq-true q h =
    (ground (arith, h), ground (arith, h), is_empty_list-eq-false q.items (ground (arith, h)))

module _ (max_per_key p : ℕ) (q : Queue) (threads : List Thread)
    (good : IsGood max_per_key threads p q) (j : ℕ) where
  held : (a : Thread) → get_elem? threads j ≡ some a → holds p a ≡ 1 → 1 ≤ q.submitters
  held a at h = omega (arith, good.submitters, sum_of-ge (holds p) threads j at, h)

  busy : (a : Thread) → get_elem? threads j ≡ some a → works p a ≡ 1 → q.processing ≡ true
  busy a at h = elim (Bool-cases q.processing) [
    | inl e ↦ e
    | inr e ↦
        let none_works : bit q.processing ≡ 0 = ap bit e in
        absurd (omega (arith, none_works, good.exclusive, sum_of-ge (works p) threads j at, h))
  ]

  held-live : (a : Thread) → get_elem? threads j ≡ some a → holds p a ≡ 1 → q.live ≡ false → ⊥
  held-live a at h d = omega (arith, (good.dead d).0, held a at h)

  busy-live : (a : Thread) → get_elem? threads j ≡ some a → works p a ≡ 1 → q.live ≡ false → ⊥
  busy-live a at h d = let e : true ≡ false = sym (busy a at h) ∙ (good.dead d).1 in cc e

  pub register-Local :
      (item : QueuedItem)
      → q.live ≡ true
      → Local max_per_key p (slotted item) (registered p item) q (add_submitter q)
  register-Local item live = record {
    same_key = refl;
    submitters = omega (arith, bit_self p);
    exclusive = refl;
    ready = λ n l m k. omega (arith, l);
    elsewhere = λ r ne. record { holding = sym (bit_ne r p ne); work = refl; selection = refl };
    stays = λ l. l;
    dead = λ d. absurd (let e : true ≡ false = sym live ∙ d in cc e);
    bounded = good.bounded;
    keyed = good.keyed;
  }

  pub enqueue_item-Local :
      (item : QueuedItem)
      → get_elem? threads j ≡ some (registered p item)
      → length q.items < max_per_key
      → q.partition_key ≡ key_of item
      → Local max_per_key p
          (registered p item)
          (leaving p)
          q
          (record q { items = q.items ++ item ∷ [] })
  enqueue_item-Local item at room named =
      let longer = length-append q.items (item ∷ []) in
      record {
        same_key = refl;
        submitters = refl;
        exclusive = refl;
        ready = λ n l m k. omega (arith, l, longer);
        elsewhere = λ r ne. record { holding = refl; work = refl; selection = refl };
        stays = λ l. l;
        dead = λ d. absurd (held-live (registered p item) at (bit_self p) d);
        bounded = omega (arith, longer, room);
        keyed =
            All-append (λ (x : QueuedItem). key_of x ≡ q.partition_key) q.items (item ∷ [])
              good.keyed (sym named, tt);
      }

  pub finish_submit-Local :
      get_elem? threads j ≡ some (leaving p)
      → Local max_per_key p (leaving p) finished q (finish_submit q)
  unfolding finish_submit
  finish_submit-Local at =
      let some_held = held (leaving p) at (bit_self p) in
      record {
        same_key = refl;
        submitters = omega (arith, some_held, bit_self p);
        exclusive = refl;
        ready = λ n l m k. omega (arith, l);
        elsewhere = λ r ne. record { holding = bit_ne r p ne; work = refl; selection = refl };
        stays = λ l. ground (arith, l);
        dead = λ d. finish_submit-dead q d (held-live (leaving p) at (bit_self p));
        bounded = good.bounded;
        keyed = good.keyed;
      }

  pub select_queue-Local :
      selectable q ≡ true → Local max_per_key p idle (selected p) q (select_queue q)
  select_queue-Local h =
      let some_item = selectable-eq-true q h in
      let unused : bit q.processing ≡ 0 = ap bit some_item.1 in
      record {
        same_key = refl;
        submitters = refl;
        exclusive = omega (arith, unused, bit_self p);
        ready = λ n l m k. omega (arith, m, unused, some_item.2, bit_self p);
        elsewhere = λ r ne. record {
          holding = refl;
          work = sym (bit_ne r p ne);
          selection = sym (bit_ne r p ne);
        };
        stays = λ l. l;
        dead = λ d. absurd (let e : true ≡ false = sym some_item.0 ∙ d in cc e);
        bounded = good.bounded;
        keyed = good.keyed;
      }

  pub receive-Local :
      (item : QueuedItem) (rest : List QueuedItem)
      → get_elem? threads j ≡ some (selected p)
      → q.items ≡ item ∷ rest
      → Local max_per_key p (selected p) (working p item) q (record q { items = rest })
  receive-Local item rest at h =
      let longer : length q.items ≡ suc (length rest) = ap length h in
      record {
        same_key = refl;
        submitters = refl;
        exclusive = refl;
        ready = λ n l m k. omega (arith, l, longer, bit_self p);
        elsewhere = λ r ne. record { holding = refl; work = refl; selection = bit_ne r p ne };
        stays = λ l. l;
        dead = λ d. absurd (busy-live (selected p) at (bit_self p) d);
        bounded = omega (arith, longer, good.bounded);
        keyed = (subst (AllOf q.partition_key) h good.keyed).1;
      }

  pub finish_queue-Local :
      (item : QueuedItem)
      → get_elem? threads j ≡ some (working p item)
      → Local max_per_key p (working p item) releasing q (finish_queue q)
  finish_queue-Local item at =
      let used : bit q.processing ≡ 1 = ap bit (busy (working p item) at (bit_self p)) in
      record {
        same_key = refl;
        submitters = refl;
        exclusive = omega (arith, used, bit_self p);
        ready = λ n l m k. omega (arith, l);
        elsewhere = λ r ne. record { holding = refl; work = bit_ne r p ne; selection = refl };
        stays = λ l. ground (arith, l);
        dead = λ d. finish_queue-dead q d (busy-live (working p item) at (bit_self p));
        bounded = good.bounded;
        keyed = good.keyed;
      }
