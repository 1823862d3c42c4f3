-- ===== src/Js/Storage.antt =====
-- `window.localStorage`. A stored text is represented by what `JSON.parse` makes of it, so that
-- `JSON.parse(JSON.stringify(v))` is `v`; an empty text, which the program treats like a malformed
-- one, is `malformed`.
use multi_delegator.Base.{String, Bool, Option, none, some, if◌then◌else◌}
use multi_delegator.Base.Dict
use multi_delegator.Base.Dict.{Dict}
use multi_delegator.Js.Value.{Value}

pub data Item : Type 0 where
  malformed : Item
  json : Value → Item

pub record Storage : Type 0 where
  -- `typeof localStorage !== 'undefined'`
  pub available : Bool
  -- `setItem` does not throw (no quota is exceeded)
  pub writable : Bool
  pub items : Dict Item

-- `localStorage.getItem(key)`
unfoldable pub get_item : Storage → String → Option Item
get_item s key = if s.available then Dict.get s.items key else none

-- `localStorage.setItem(key, JSON.stringify(v))`, where `none` is an exception
unfoldable pub set_item : Storage → String → Value → Option Storage
set_item s key v =
    if s.available
    then if s.writable then some (record s { items = Dict.put s.items key (json v) }) else none
    else none
