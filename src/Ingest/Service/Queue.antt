-- ===== src/Ingest/Service/Queue.antt =====
-- The acknowledgement manager beside the ids that wait, and what each call does to both.
use telhawk_stack.Prelude.{
  ℕ, suc, ◌+◌, str_eq, Bool-cases, String, true, false, none, some, List, [], ◌∷◌, ◌++◌, ◌≡◌, refl,
  sym, ◌⊎◌, inl, inr, arith, eq_iff, subst, Option-cases,
}
use telhawk_stack.Prelude.Keys.{
  In, IsDistinct, In-append_left, In-append_right, In-append_cases, IsDistinct-append, times,
  times-In, In-times, times-IsDistinct, IsDistinct-times,
}
use telhawk_stack.Prelude.Maps.{get, put, keys, get-put_same, get-put_other, IsDistinct-put}
use telhawk_stack.Ingest.Ack.{
  pending, success, failed, Ack, Manager, is_pending, new_manager, add_ack, count_ack, complete,
  fail, cleanup,
}
use telhawk_stack.Ingest.Ack.Gauge.{
  IsBehind, add_ack-IsBehind, count_ack-IsBehind, complete-IsBehind, fail-IsBehind,
  cleanup-IsBehind, new_manager-IsBehind,
}
use telhawk_stack.Ingest.Ack.Answers.{IsDistinct-unexpired, get-cleanup}

-- The pending acknowledgements in the map are those that wait, and the gauge counts them but for `lag`
-- of them.
pub record Agrees (m : Manager) (lag : ℕ) (waiting : List String) : Type 0 where
  pub distinct_keys : IsDistinct (keys m.acks)
  pub distinct : IsDistinct waiting
  pub named : ¬ In "" waiting
  pub pending_waits :
      (k : String) (a : Ack) → get k m.acks ≡ some a → is_pending a.status ≡ true → In k waiting
  pub waiting_is_pending :
      (k : String) (a : Ack) → get k m.acks ≡ some a → In k waiting → is_pending a.status ≡ true
  pub exact : IsBehind lag m

-- The id of a new acknowledgement: not empty, and neither in the map nor waiting.
abbrev pub IsNew : String → Manager → List String → Type 0
IsNew k m waiting = (get k m.acks ≡ none) × (¬ In k waiting) × (¬ (k ≡ ""))

pub new_manager-Agrees : (ttl : ℕ) → Agrees (new_manager ttl) 0 []
unfolding new_manager
new_manager-Agrees ttl = record {
  distinct_keys = tt;
  distinct = tt;
  named = λ n. elim n [ ];
  pending_waits = λ k a e p. cc;
  waiting_is_pending = λ k a e n. elim n [ ];
  exact = new_manager-IsBehind ttl;
}

pub cleanup-Agrees :
    (now : ℕ) (m : Manager) (lag : ℕ) (waiting : List String)
    → Agrees m lag waiting
    → Agrees (cleanup now m) lag waiting
unfolding cleanup
cleanup-Agrees now m lag waiting h = record {
  distinct_keys = IsDistinct-unexpired now m.ttl m.acks h.distinct_keys;
  distinct = h.distinct;
  named = h.named;
  pending_waits =
      λ k a e p. ground (arith, get-cleanup k now m h.distinct_keys, h.pending_waits k a);
  waiting_is_pending =
      λ k a e p. ground (arith, get-cleanup k now m h.distinct_keys, h.waiting_is_pending k a);
  exact = cleanup-IsBehind lag now m h.exact;
}

pub add_ack-Agrees :
    (k : String) (now : ℕ) (ids waiting : List String) (m : Manager) (lag : ℕ)
    → IsNew k m waiting
    → Agrees m lag waiting
    → Agrees (add_ack k now ids m) (suc lag) (waiting ++ k ∷ [])
unfolding add_ack
add_ack-Agrees k now ids waiting m lag new h =
    let fresh : Ack = record { id = k; status = pending; timestamp = now; event_ids = ids } in
    record {
      distinct_keys = IsDistinct-put k fresh m.acks h.distinct_keys;
      distinct = IsDistinct-append k waiting h.distinct new.1;
      named = λ n. elim (In-append_cases "" k waiting n) [ inl i ↦ h.named i | inr e ↦ new.2 e ];
      pending_waits = λ j a e p. ground (
        arith,
        eq_iff k j,
        get-put_other k j fresh m.acks,
        h.pending_waits j a,
        In-append_left j waiting (k ∷ []),
        In-append_right k waiting,
      );
      waiting_is_pending = λ j a e w. ground (
        arith,
        eq_iff k j,
        get-put_same k fresh m.acks,
        get-put_other k j fresh m.acks,
        h.waiting_is_pending j a,
        In-append_cases j k waiting w,
      );
      exact = add_ack-IsBehind lag k now ids m new.0 h.exact;
    }

pub count_ack-Agrees :
    (m : Manager) (lag : ℕ) (waiting : List String)
    → Agrees m (suc lag) waiting
    → Agrees (count_ack m) lag waiting
unfolding count_ack
count_ack-Agrees m lag waiting h = record {
  distinct_keys = h.distinct_keys;
  distinct = h.distinct;
  named = h.named;
  pending_waits = h.pending_waits;
  waiting_is_pending = h.waiting_is_pending;
  exact = count_ack-IsBehind lag m h.exact;
}

-- The order of those that wait does not matter.
pub moved-Agrees :
    (m : Manager) (lag lag' : ℕ) (before after : List String)
    → lag ≡ lag'
    → ((k : String) → times k after ≡ times k before)
    → Agrees m lag before
    → Agrees m lag' after
moved-Agrees m lag lag' before after e moved h =
    let back : (k : String) → In k after → In k before =
      λ k i. In-times k before (omega (arith, moved k, times-In k after i)) in
    record {
      distinct_keys = h.distinct_keys;
      distinct =
          IsDistinct-times after
            (λ k. omega (arith, moved k, times-IsDistinct k before h.distinct));
      named = λ i. h.named (back "" i);
      pending_waits = λ k a f p.
          In-times k after (omega (arith, moved k, times-In k before (h.pending_waits k a f p)));
      waiting_is_pending = λ k a f i. h.waiting_is_pending k a f (back k i);
      exact = subst (λ l. IsBehind l m) e h.exact;
    }

-- `after` is `before` without k.
pub record IsWithout (k : String) (before after : List String) : Type 0 where
  pub distinct : IsDistinct after
  pub among : (j : String) → In j after → In j before
  pub rest : (j : String) → In j before → (k ≡ j) ⊎ In j after
  pub gone : ¬ In k after

pub head-IsWithout :
    (k : String) (waiting : List String)
    → IsDistinct (k ∷ waiting)
    → IsWithout k (k ∷ waiting) waiting
head-IsWithout k waiting d = record {
  distinct = d.1;
  among = λ j i. inr i;
  rest = λ j i. i;
  gone = d.0;
}

pub taken-IsWithout :
    (k : String) (before after : List String)
    → IsDistinct before
    → ((j : String) → times j before ≡ times j (k ∷ []) + times j after)
    → IsWithout k before after
taken-IsWithout k before after d taken = record {
  distinct = IsDistinct-times after (λ j. omega (arith, taken j, times-IsDistinct j before d));
  among = λ j i. In-times j before (omega (arith, taken j, times-In j after i));
  rest = λ j i. elim (Bool-cases (str_eq j k)) [
    | inl same ↦ inl (sym ((eq_iff j k).0 same))
    | inr other ↦ inr (In-times j after (ground (arith, other, taken j, times-In j before i)))
  ];
  gone = λ i.
      absurd (ground (arith, eq_iff k k, taken k, times-In k after i, times-IsDistinct k before d));
}

module _ (k : String) (before after : List String) (without : IsWithout k before after) where
  forgotten-Agrees :
      (m : Manager) (lag : ℕ) → get k m.acks ≡ none → Agrees m lag before → Agrees m lag after
  forgotten-Agrees m lag e h = record {
    distinct_keys = h.distinct_keys;
    distinct = without.distinct;
    named = λ n. h.named (without.among "" n);
    pending_waits = λ j a f p. ground (arith, h.pending_waits j a f p, without.rest j);
    waiting_is_pending = λ j a f w. h.waiting_is_pending j a f (without.among j w);
    exact = h.exact;
  }

  replaced-Agrees :
      (m m' : Manager) (lag : ℕ) (b : Ack)
      → is_pending b.status ≡ false
      → m'.acks ≡ put k b m.acks
      → IsBehind lag m'
      → Agrees m lag before
      → Agrees m' lag after
  replaced-Agrees m m' lag b settled e exact h = record {
    distinct_keys = ground (arith, IsDistinct-put k b m.acks h.distinct_keys);
    distinct = without.distinct;
    named = λ n. h.named (without.among "" n);
    pending_waits = λ j a f p. ground (
      arith,
      eq_iff k j,
      get-put_same k b m.acks,
      get-put_other k j b m.acks,
      h.pending_waits j a,
      without.rest j,
    );
    waiting_is_pending = λ j a f w. ground (
      arith,
      eq_iff k j,
      get-put_other k j b m.acks,
      h.waiting_is_pending j a,
      without.gone,
      without.among j w,
    );
    exact = exact;
  }

  complete_missing : (now : ℕ) (m : Manager) → get k m.acks ≡ none → complete k now m ≡ m
  unfolding complete
  complete_missing now m e = ground (arith, e)

  complete_acks :
      (now : ℕ) (m : Manager) (a : Ack)
      → get k m.acks ≡ some a
      → (complete k now m).acks ≡ put k (record a { status = success; timestamp = now }) m.acks
  unfolding complete
  complete_acks now m a e = ground (arith, e)

  pub complete-Agrees :
      (now : ℕ) (m : Manager) (lag : ℕ)
      → In k before
      → Agrees m lag before
      → Agrees (complete k now m) lag after
  complete-Agrees now m lag i h = elim (Option-cases (get k m.acks)) [
    | inl e ↦
        subst (λ m'. Agrees m' lag after) (sym (complete_missing now m e))
          (forgotten-Agrees m lag e h)
    | inr p ↦
        replaced-Agrees m (complete k now m) lag (record p.0 { status = success; timestamp = now })
          refl (complete_acks now m p.0 p.1)
          (ground
            (arith, p.1, h.waiting_is_pending k p.0 p.1 i, complete-IsBehind lag k now m h.exact))
          h
  ]

  fail_missing : (now : ℕ) (m : Manager) → get k m.acks ≡ none → fail k now m ≡ m
  unfolding fail
  fail_missing now m e = ground (arith, e)

  fail_acks :
      (now : ℕ) (m : Manager) (a : Ack)
      → get k m.acks ≡ some a
      → (fail k now m).acks ≡ put k (record a { status = failed; timestamp = now }) m.acks
  unfolding fail
  fail_acks now m a e = ground (arith, e)

  pub fail-Agrees :
      (now : ℕ) (m : Manager) (lag : ℕ)
      → In k before
      → Agrees m lag before
      → Agrees (fail k now m) lag after
  fail-Agrees now m lag i h = elim (Option-cases (get k m.acks)) [
    | inl e ↦
        subst (λ m'. Agrees m' lag after) (sym (fail_missing now m e)) (forgotten-Agrees m lag e h)
    | inr p ↦
        replaced-Agrees m (fail k now m) lag (record p.0 { status = failed; timestamp = now }) refl
          (fail_acks now m p.0 p.1)
          (ground (arith, p.1, h.waiting_is_pending k p.0 p.1 i, fail-IsBehind lag k now m h.exact))
          h
  ]
