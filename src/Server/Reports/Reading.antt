-- ===== src/Server/Reports/Reading.antt =====
-- src/server/mod.rs: how a client reads the reports of `health_handler`.
use soroban_gate.Common.{Bool, false, Option, none, some, String, if◌then◌else◌, str_eq}
use soroban_gate.Server.Http.{
  Json, Items, Members, object, array, string, no_items, item, no_members, member,
}

unfoldable pub get_member : String → Members → Option Json
get_member key no_members = none
get_member key (member name value rest) =
    if str_eq name key then some value else get_member key rest

-- `value[key]`.
unfoldable pub field : String → Json → Option Json
unfolding get_member
field key (object fields) = get_member key fields
field key _ = none

abbrev pub is_text : String → Option Json → Bool
is_text name (some (string s)) = str_eq s name
is_text name _ = false

-- The first item with the name.
unfoldable pub find_named : String → Items → Option Json
unfolding field
find_named name no_items = none
find_named name (item value rest) =
    if is_text name (field "name" value) then some value else find_named name rest

abbrev pub named_in : String → Option Json → Option Json
named_in name (some (array entries)) = find_named name entries
named_in name _ = none

abbrev pub field_of : String → Option Json → Option Json
field_of key (some value) = field key value
field_of key none = none

-- What a report says of a pool.
unfoldable pub reported : String → String → Json → Option Json
unfolding find_named
reported key name report = field_of key (named_in name (field "pools" report))
