-- ===== src/Collect/Cache.antt =====
-- webapp/src/lib/collect-utils.ts, the cache of failures in `localStorage`. The cache is kept as the
-- value that `JSON.parse` returned, so that what a foreign stored value does is seen.
pub mod Laws
use multi_delegator.Base.{
  String, Bool, not, ◌&&◌, Option, none, some, [], ◌∷◌, if◌then◌else◌, is_some, or_else, all,
}
use multi_delegator.Base.Int.{ℤ}
use multi_delegator.Js.Value.{
  Value, is_record, field, string?, number?, object_values, set_field, remove_field, has_field,
  undefined, null, num, str, obj, end, prop,
}
use multi_delegator.Js.Storage.{Storage, Item, get_item, set_item, malformed, json}
use multi_delegator.Js.Decimal.{template}
use multi_delegator.Collect.Types.{CollectableSubscriber}

pub record CachedFailure : Type 0 where
  pub reason : String
  pub message : String
  pub state_hash : String
  pub failed_at : ℤ

abbrev pub failure_cache_storage_key : String
failure_cache_storage_key = "collect-payments-subscriber-failures"

-- one entry's test in `isCachedFailureMap`
unfoldable pub is_cached_failure : Value → Bool
is_cached_failure entry =
    is_record entry
    && (is_some (string? (field entry "reason"))
        && (is_some (string? (field entry "message"))
            && (is_some (string? (field entry "stateHash"))
                && is_some (number? (field entry "failedAt")))))

unfoldable pub is_cached_failure_map : Value → Bool
unfolding is_cached_failure
is_cached_failure_map value = is_record value && all is_cached_failure (object_values value)

abbrev of_item : Option Item → Value
of_item none = obj end
of_item (some malformed) = obj end
of_item (some (json parsed)) = if is_cached_failure_map parsed then parsed else obj end

unfoldable pub read_failure_cache : Storage → Value
read_failure_cache s = of_item (get_item s failure_cache_storage_key)

-- an exception of `setItem` is swallowed
unfoldable pub write_failure_cache : Storage → Value → Storage
write_failure_cache s cache = or_else (set_item s failure_cache_storage_key cache) s

unfoldable pub cache_key : CollectableSubscriber → String
cache_key subscriber = template (subscriber.subscription_address ∷ ":" ∷ subscriber.delegator ∷ [])

-- an entry as the object literal that is stored
abbrev pub entry_of : CachedFailure → Value
entry_of f = obj (
    prop "reason" (str f.reason) (
      prop "message" (str f.message)
        (prop "stateHash" (str f.state_hash) (prop "failedAt" (num f.failed_at) end))))

abbrev nullish : Value → Option Value
nullish undefined = none
nullish null = none
nullish v = some v

-- `cache[cacheKey(subscriber)] ?? null`
unfoldable pub read_cached_failure : Storage → CollectableSubscriber → Option Value
read_cached_failure s subscriber = nullish (field (read_failure_cache s) (cache_key subscriber))

unfoldable pub write_cached_failure : Storage → CollectableSubscriber → CachedFailure → Storage
write_cached_failure s subscriber failure =
    write_failure_cache s
      (set_field (read_failure_cache s) (cache_key subscriber) (entry_of failure))

unfoldable pub clear_cached_failure : Storage → CollectableSubscriber → Storage
clear_cached_failure s subscriber =
    let cache = read_failure_cache s in
    if not (has_field cache (cache_key subscriber))
    then s
    else write_failure_cache s (remove_field cache (cache_key subscriber))
