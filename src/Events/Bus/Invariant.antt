-- ===== src/Events/Bus/Invariant.antt =====
-- The well-formed bus: every key has a set of its own, and no set holds a listener twice.
use almadar_runtime.Base.{
  ℕ, suc, ◌<◌, ◌≡◌, inl, inr, List, [], Option, some, String, ◌==◌, if◌then◌else◌, arith, nat_eq,
  string_eq, get, put, delete, get-put, get-delete, insert, remove, IsUnique, insert-IsUnique,
  remove-IsUnique, Bool-cases, Option-cases, is_empty,
}
use almadar_runtime.Events.Bus.{
  Bus, Subscription, create, members, on, add_to, unsubscribe, drop_from, clear,
}

pub record IsWf (b : Bus) : Type 0 where
  pub fresh : (t : String) (s : ℕ) → get t b.listeners ≡ some s → s < b.next_set
  pub apart :
      (t u : String) (s : ℕ) → get t b.listeners ≡ some s → get u b.listeners ≡ some s → t ≡ u
  pub once : (s : ℕ) → IsUnique (members s b)

pub create-IsWf : (max : Option ℕ) → IsWf (create max)
unfolding create get members
create-IsWf max = record {
  fresh = λ t s e. absurd (cc);
  apart = λ t u s e f. absurd (cc);
  once = λ s. tt;
}

pub members-put :
    (s r : ℕ) (xs : List ℕ) (b : Bus)
    → members r (record b { sets = put s xs b.sets }) ≡ (if s == r then xs else members r b)
unfolding members
members-put s r xs b = ground (arith, get-put s r xs b.sets)

put_once :
    (s : ℕ) (xs : List ℕ) (b : Bus)
    → IsUnique xs
    → ((r : ℕ) → IsUnique (members r b))
    → (r : ℕ) → IsUnique (members r (record b { sets = put s xs b.sets }))
put_once s xs b h k r = rw (members-put s r xs b) (ground (arith, h, k r))

add_to-IsWf : (t : String) (s l : ℕ) (b : Bus) → IsWf b → IsWf (add_to t s l b).0
unfolding add_to
add_to-IsWf t s l b v = record {
  fresh = v.fresh;
  apart = v.apart;
  once = put_once s (insert l (members s b)) b (insert-IsUnique l (members s b) (v.once s)) v.once;
}

pub add_key-IsWf :
    (t : String) (b : Bus)
    → IsWf b
    → IsWf (record b {
      sets = put b.next_set [] b.sets;
      listeners = put t b.next_set b.listeners;
      next_set = suc b.next_set;
    })
unfolding members
add_key-IsWf t b v = record {
  fresh = λ u s e. ground (arith, get-put t u b.next_set b.listeners, v.fresh u s);
  apart = λ u w s e f. ground (
    arith,
    get-put t u b.next_set b.listeners,
    get-put t w b.next_set b.listeners,
    v.apart u w s,
    v.fresh u s,
    v.fresh w s,
    string_eq.test_iff t u,
    string_eq.test_iff t w,
  );
  once = put_once b.next_set [] b tt v.once;
}

pub on-IsWf : (t : String) (l : ℕ) (b : Bus) → IsWf b → IsWf (on t l b).0
unfolding on
on-IsWf t l b v = elim (Option-cases (get t b.listeners)) [
  | inl missing ↦ rw (missing, on) (add_to-IsWf t b.next_set l _ (add_key-IsWf t b v))
  | inr (s, found) ↦ rw (found, on) (add_to-IsWf t s l b v)
]

drop_from-IsWf : (u : Subscription) (b : Bus) → IsWf b → IsWf (drop_from u b)
unfolding drop_from
drop_from-IsWf u b v = record {
  fresh = v.fresh;
  apart = v.apart;
  once =
      put_once u.set (remove u.listener (members u.set b)) b
        (remove-IsUnique u.listener (members u.set b) (v.once u.set)) v.once;
}

delete_key-IsWf :
    (t : String) (b : Bus) → IsWf b → IsWf (record b { listeners = delete t b.listeners })
unfolding members
delete_key-IsWf t b v = record {
  fresh = λ u s e. ground (arith, get-delete t u b.listeners, v.fresh u s);
  apart = λ u w s e f.
      ground (arith, get-delete t u b.listeners, get-delete t w b.listeners, v.apart u w s);
  once = v.once;
}

pub unsubscribe-IsWf : (u : Subscription) (b : Bus) → IsWf b → IsWf (unsubscribe u b)
unfolding unsubscribe
unsubscribe-IsWf u b v = elim (Bool-cases (is_empty (members u.set (drop_from u b)))) [
  | inl e ↦ rw (e, unsubscribe) (delete_key-IsWf u.type _ (drop_from-IsWf u b v))
  | inr e ↦ rw (e, unsubscribe) (drop_from-IsWf u b v)
]

pub clear-IsWf : (b : Bus) → IsWf b → IsWf (clear b)
unfolding clear get members
clear-IsWf b v = record {
  fresh = λ t s e. absurd (cc);
  apart = λ t u s e f. absurd (cc);
  once = v.once;
}

pub depth-IsWf : (d : ℕ) (b : Bus) → IsWf b → IsWf (record b { depth = d })
unfolding members
depth-IsWf d b v = record { fresh = v.fresh; apart = v.apart; once = v.once }
