-- ===== src/Collect/Cache/Laws.antt =====
-- The cache of failures reads back what was written, key by key.
use multi_delegator.Base.{
  String, ◌≡◌, refl, ◌⊎◌, inl, inr, Bool, true, false, Option, none, some, arith, str_eq, eq_iff,
  eq_refl, if◌then◌else◌, Bool-cases, all,
}
use multi_delegator.Js.Value.{
  is_record, string?, number?, IsObject, Value, Props, props, field, object_values, set_field,
  remove_field, obj, end, prop, Elems, second, set_prop, remove_prop, has_field, field-set_field,
  field-remove_field, field_of_not_has, undefined, arr,
}
use multi_delegator.Js.Storage.{Storage, get_item, malformed, Item, set_item, json}
use multi_delegator.Base.Dict.{get-put}
use multi_delegator.Collect.Cache.{
  CachedFailure, is_cached_failure, is_cached_failure_map, read_failure_cache, entry_of,
  write_failure_cache, failure_cache_storage_key, cache_key, read_cached_failure,
  write_cached_failure, clear_cached_failure, of_item, nullish,
}
use multi_delegator.Collect.Types.{CollectableSubscriber}

-- The storage takes writes, and what it holds of the cache is an object.
pub record IsUsable (s : Storage) : Type 0 where
  pub is_available : s.available ≡ true
  pub is_writable : s.writable ≡ true
  pub is_object : IsObject (read_failure_cache s)

is_cached_failure-entry_of : (f : CachedFailure) → is_cached_failure (entry_of f) ≡ true
unfolding is_cached_failure is_record field string? number?
is_cached_failure-entry_of f = refl

of_item_valid : (o : Option Item) → is_cached_failure_map (of_item o) ≡ true
unfolding is_cached_failure_map is_record object_values
of_item_valid none = refl
of_item_valid (some malformed) = refl
of_item_valid (some (json v)) = elim (Bool-cases (is_cached_failure_map v)) [
  | inl valid ↦ rw valid valid
  | inr invalid ↦ rw invalid
]

-- Putting a valid entry into an object of valid entries gives one; so does taking one out.
valid-set_prop :
    (k : String) (w : Value) (ps : Props)
    → is_cached_failure w ≡ true
    → all is_cached_failure (second (props ps)) ≡ true
    → all is_cached_failure (second (props (set_prop k w ps))) ≡ true
unfolding set_prop
valid-set_prop k w end hw h = ground arith
valid-set_prop k w (prop j v ps) hw h = ground (arith, valid-set_prop k w ps hw)

valid-remove_prop :
    (k : String) (ps : Props)
    → all is_cached_failure (second (props ps)) ≡ true
    → all is_cached_failure (second (props (remove_prop k ps))) ≡ true
unfolding remove_prop
valid-remove_prop k end h = h
valid-remove_prop k (prop j v ps) h = ground (arith, valid-remove_prop k ps)

valid-set_field :
    (v w : Value) (k : String)
    → IsObject v
    → is_cached_failure w ≡ true
    → is_cached_failure_map v ≡ true
    → is_cached_failure_map (set_field v k w) ≡ true
unfolding is_cached_failure_map is_record object_values set_field
valid-set_field (obj ps) w k o hw h = valid-set_prop k w ps hw h
valid-set_field _ w k o hw h = absurd o

valid-remove_field :
    (v : Value) (k : String)
    → is_cached_failure_map v ≡ true
    → is_cached_failure_map (remove_field v k) ≡ true
unfolding is_cached_failure_map is_record object_values remove_field
valid-remove_field (obj ps) k h = valid-remove_prop k ps h
valid-remove_field _ k h = h

read-write_failure_cache :
    (s : Storage) (v : Value)
    → s.available ≡ true
    → s.writable ≡ true
    → is_cached_failure_map v ≡ true
    → read_failure_cache (write_failure_cache s v) ≡ v
unfolding read_failure_cache write_failure_cache get_item set_item
read-write_failure_cache s v a w h = rw (a, w) (simp get-put (simp h))

read_failure_cache_valid : (s : Storage) → is_cached_failure_map (read_failure_cache s) ≡ true
unfolding read_failure_cache
read_failure_cache_valid s = of_item_valid (get_item s failure_cache_storage_key)

nullish_if :
    (b : Bool) (v w : Value) → nullish (if b then v else w) ≡ (if b then nullish v else nullish w)
nullish_if true v w = refl
nullish_if false v w = refl

-- A failure that is written to a usable storage is read back for the subscribers with its key; the
-- other subscribers read what they read before.
pub read_cached_failure-write_cached_failure :
    (s : Storage) (subscriber other : CollectableSubscriber) (f : CachedFailure)
    → IsUsable s
    → read_cached_failure (write_cached_failure s subscriber f) other ≡ (
        if str_eq (cache_key subscriber) (cache_key other)
        then some (entry_of f)
        else read_cached_failure s other)
unfolding read_cached_failure write_cached_failure
read_cached_failure-write_cached_failure s subscriber other f u =
    let valid =
      valid-set_field (read_failure_cache s) (entry_of f) (cache_key subscriber) u.is_object
        (is_cached_failure-entry_of f) (read_failure_cache_valid s) in
    rw (read-write_failure_cache s _ u.is_available u.is_writable valid) (
      rw
        (field-set_field (read_failure_cache s) (entry_of f) (cache_key subscriber)
          (cache_key other) u.is_object)
        (nullish_if _ (entry_of f) _))

-- After a failure is cleared in a storage that takes writes, the subscribers with its key read none,
-- and the others what they read before.
pub read_cached_failure-clear_cached_failure :
    (s : Storage) (subscriber other : CollectableSubscriber)
    → s.available ≡ true
    → s.writable ≡ true
    → read_cached_failure (clear_cached_failure s subscriber) other ≡ (
        if str_eq (cache_key subscriber) (cache_key other)
        then none
        else read_cached_failure s other)
unfolding read_cached_failure clear_cached_failure
read_cached_failure-clear_cached_failure s subscriber other a w =
    elim (Bool-cases (has_field (read_failure_cache s) (cache_key subscriber))) [
      | inl there ↦ rw there (
          rw
            (read-write_failure_cache s _ a w (
              valid-remove_field (read_failure_cache s) (cache_key subscriber)
                (read_failure_cache_valid s)))
            (rw (field-remove_field (read_failure_cache s) (cache_key subscriber) (cache_key other))
              (nullish_if _ undefined _)))
      | inr missing ↦ rw missing (
          ground (
            arith,
            eq_iff (cache_key subscriber) (cache_key other),
            field_of_not_has (read_failure_cache s) (cache_key subscriber) missing,
          ))
    ]

write_failure_cache_refused :
    (s : Storage) (v : Value)
    → (s.available ≡ false) ⊎ (s.writable ≡ false)
    → write_failure_cache s v ≡ s
unfolding write_failure_cache set_item
write_failure_cache_refused s v h = ground arith

read-write_self :
    (s : Storage) (v : Value)
    → read_failure_cache s ≡ v
    → read_failure_cache (write_failure_cache s v) ≡ v
read-write_self s v e = elim (Bool-cases s.available) [
  | inl a ↦ elim (Bool-cases s.writable) [
    | inl w ↦ read-write_failure_cache s v a w (rw e at (read_failure_cache_valid s))
    | inr w ↦ rw (write_failure_cache_refused s v (inr w)) e
  ]
  | inr a ↦ rw (write_failure_cache_refused s v (inl a)) e
]

-- Where the stored cache is an array that passes the test of the cache, what is written is lost.
pub write_cached_failure_array :
    (s : Storage) (subscriber : CollectableSubscriber) (f : CachedFailure) (vs : Elems)
    → read_failure_cache s ≡ arr vs
    → read_cached_failure (write_cached_failure s subscriber f) subscriber ≡ none
unfolding read_cached_failure write_cached_failure set_field field
write_cached_failure_array s subscriber f vs e = rw e (rw (read-write_self s (arr vs) e))

pub read_cached_failure_written :
    (s : Storage) (subscriber : CollectableSubscriber) (f : CachedFailure)
    → IsUsable s
    → read_cached_failure (write_cached_failure s subscriber f) subscriber ≡ some (entry_of f)
read_cached_failure_written s subscriber f u =
    rw (read_cached_failure-write_cached_failure s subscriber subscriber f u)
      (rw (eq_refl (cache_key subscriber)))
