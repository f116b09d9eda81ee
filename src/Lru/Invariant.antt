-- ===== src/Lru/Invariant.antt =====
-- The replacer's invariant, and that every operation of lru_k.cpp but `evict` preserves it.
use hivedb.Base.{
  ℕ, zero, suc, ◌+◌, ◌%◌, ◌≤◌, ◌<◌, ◌≡◌, refl, Bool, Option, none, some, List, [], ◌∷◌, ◌++◌, arith,
  length, get_elem?, Ensures, lookup, erase, Ascends, Every, Every-lookup, Every-insert,
  Every-assign, Every-erase, Every-mono, Bool-cases, inl, inr, insert-Ascends, assign-Ascends,
  erase-Ascends, length-append, ℤ,
}
use hivedb.Lru.{
  LruK, LruKNode, u64_mod, make, record_access, touch, mark, drop_node, set_evictable, remove,
}

-- The access times rise from `b` on and lie before `now`.
abbrev pub Rises : ℕ → ℕ → List ℕ → Type 0
Rises b now [] = b ≤ now
Rises b now (t ∷ ts) = (b ≤ t) × Rises (suc t) now ts

pub record NodeIsValid (size now id : ℕ) (node : LruKNode) : Type 0 where
  pub in_range : id < size
  pub accessed : 0 < length node.history
  pub rises : Rises 0 now node.history

pub record IsValid (l : LruK) : Type 0 where
  pub ascends : Ascends 0 l.current_nodes
  pub nodes : Every (NodeIsValid l.size l.current_timestamp) l.current_nodes
  pub in_time : l.current_timestamp < u64_mod

-- The counter does not wrap at the next access.
abbrev pub HasTime : LruK → Type 0
HasTime l = l.current_timestamp + 1 < u64_mod

pub Rises-append : (b now : ℕ) (h : List ℕ) → Rises b now h → Rises b (suc now) (h ++ now ∷ [])
Rises-append b now [] r = omega arith
Rises-append b now (t ∷ ts) r = (r.0, Rises-append (suc t) now ts r.1)

Rises-suc : (b now : ℕ) (h : List ℕ) → Rises b now h → Rises b (suc now) h
Rises-suc b now [] r = omega arith
Rises-suc b now (t ∷ ts) r = (r.0, Rises-suc (suc t) now ts r.1)

pub Rises-lt : (b now i t : ℕ) (h : List ℕ) → Rises b now h → get_elem? h i ≡ some t → t < now
Rises-lt b now i t [] r e = cc
Rises-lt b now zero t (s ∷ ts) r e = ground (arith, Rises-le (suc s) now ts r.1)
  where
    Rises-le : (b now : ℕ) (h : List ℕ) → Rises b now h → b ≤ now
    Rises-le b now [] r = r
    Rises-le b now (t ∷ ts) r = omega (arith, Rises-le (suc t) now ts r.1)
Rises-lt b now (suc i) t (s ∷ ts) r e = Rises-lt (suc s) now i t ts r.1 e

NodeIsValid-suc :
    (size now id : ℕ) (node : LruKNode)
    → NodeIsValid size now id node
    → NodeIsValid size (suc now) id node
NodeIsValid-suc size now id node v = record {
  in_range = v.in_range;
  accessed = v.accessed;
  rises = Rises-suc 0 now node.history v.rises;
}

-- A replacer that the constructor accepts is valid.
pub make-IsValid : (k size : ℤ) → Ensures (make k size) IsValid
unfolding make
make-IsValid (ℤ.pos k) (ℤ.pos size) = record { ascends = tt; nodes = tt; in_time = omega arith }
make-IsValid (ℤ.pos k) (ℤ.negsuc size) = tt
make-IsValid (ℤ.negsuc k) size = tt

touch-IsValid :
    (l : LruK) (id : ℕ) (o : Option LruKNode)
    → lookup id l.current_nodes ≡ o
    → IsValid l
    → HasTime l
    → id < l.size
    → IsValid (touch l id o)
unfolding touch
touch-IsValid l id none e v t h =
    let now = l.current_timestamp in
    let e' : (now + 1) % u64_mod ≡ suc now = omega arith in
    rw e' (record {
      ascends = insert-Ascends id 0 _ l.current_nodes e (omega arith) v.ascends;
      nodes =
          Every-insert _ id _ l.current_nodes
            (record { in_range = h; accessed = omega arith; rises = omega arith })
            (Every-mono _ _ l.current_nodes (NodeIsValid-suc l.size now) v.nodes);
      in_time = omega arith;
    })
touch-IsValid l id (some node) e v t h =
    let now = l.current_timestamp in
    let e' : (now + 1) % u64_mod ≡ suc now = omega arith in
    let old = Every-lookup _ id node l.current_nodes v.nodes e in
    rw e' (record {
      ascends = assign-Ascends id 0 _ l.current_nodes v.ascends;
      nodes =
          Every-assign _ id _ l.current_nodes
            (record {
              in_range = h;
              accessed = omega (arith, length-append node.history (now ∷ []));
              rises = Rises-append 0 now node.history old.rises;
            })
            (Every-mono _ _ l.current_nodes (NodeIsValid-suc l.size now) v.nodes);
      in_time = omega arith;
    })

-- An access either is refused or leaves a valid replacer.
pub record_access-IsValid :
    (l : LruK) (id : ℕ) → IsValid l → HasTime l → Ensures (record_access l id) IsValid
unfolding record_access
record_access-IsValid l id v t =
    ground (arith, touch-IsValid l id (lookup id l.current_nodes) refl v t)

mark-IsValid :
    (l : LruK) (id : ℕ) (b : Bool) (o : Option LruKNode)
    → lookup id l.current_nodes ≡ o
    → IsValid l
    → IsValid (mark l id b o)
unfolding mark
mark-IsValid l id b none e v = v
mark-IsValid l id b (some node) e v =
    let old = Every-lookup _ id node l.current_nodes v.nodes e in
    record {
      ascends = assign-Ascends id 0 _ l.current_nodes v.ascends;
      nodes =
          Every-assign _ id _ l.current_nodes
            (record { in_range = old.in_range; accessed = old.accessed; rises = old.rises })
            v.nodes;
      in_time = v.in_time;
    }

-- Setting the flag either is refused or leaves a valid replacer.
pub set_evictable-IsValid :
    (l : LruK) (id : ℕ) (b : Bool) → IsValid l → Ensures (set_evictable l id b) IsValid
unfolding set_evictable
set_evictable-IsValid l id b v =
    ground (arith, mark-IsValid l id b (lookup id l.current_nodes) refl v)

pub erase-IsValid :
    (l : LruK) (id : ℕ)
    → IsValid l
    → IsValid (record l { current_nodes = erase id l.current_nodes })
erase-IsValid l id v = record {
  ascends = erase-Ascends id 0 l.current_nodes v.ascends;
  nodes = Every-erase _ id l.current_nodes v.nodes;
  in_time = v.in_time;
}

drop_node-IsValid :
    (l : LruK) (id : ℕ) (o : Option LruKNode) → IsValid l → IsValid (drop_node l id o)
unfolding drop_node
drop_node-IsValid l id none v = v
drop_node-IsValid l id (some node) v = elim (Bool-cases node.is_evictable) [
  | inl e ↦ rw (e, drop_node) (erase-IsValid l id v)
  | inr e ↦ rw (e, drop_node) v
]

-- Removing a frame either is refused or leaves a valid replacer.
pub remove-IsValid : (l : LruK) (id : ℕ) → IsValid l → Ensures (remove l id) IsValid
unfolding remove
remove-IsValid l id v = ground (arith, drop_node-IsValid l id (lookup id l.current_nodes) v)
