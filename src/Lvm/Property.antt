-- ===== src/Lvm/Property.antt =====
-- lvm/property.rs: the properties that are kept in an LVM resource as tags, each printed as
-- `key=value` and read back from that text.
pub mod RoundTrip
mod Tests
use mayastor.Common.{ℕ, List, [], ◌∷◌, ◌++◌, Bool, true, false, Option, none, some, if◌then◌else◌}
use mayastor.Common.Panic.{◌>>=◌}
use mayastor.Common.Text.{Text, codes, same_text, split, join, non_empty}

pub data Protocol : Type 0 where
  off nvmf : Protocol

unfoldable pub value_str : Protocol → Text
value_str off = codes "off"
value_str nvmf = codes "nvmf"

unfoldable pub from_value : Text → Protocol
from_value value = if same_text value (codes "nvmf") then nvmf else off

pub data Property : Type 0 where
  lvm : Property
  unknown : Text → Text → Property
  lv_name : Text → Property
  lv_share : Protocol → Property
  lv_allowed_hosts : List Text → Property
  lv_entity_id : Text → Property

pub data PropertyType : Type 0 where
  lvm unknown lv_name lv_share lv_allowed_hosts lv_entity_id : PropertyType

unfoldable pub type_ : Property → PropertyType
type_ Property.lvm = PropertyType.lvm
type_ (Property.unknown _ _) = PropertyType.unknown
type_ (Property.lv_name _) = PropertyType.lv_name
type_ (Property.lv_share _) = PropertyType.lv_share
type_ (Property.lv_allowed_hosts _) = PropertyType.lv_allowed_hosts
type_ (Property.lv_entity_id _) = PropertyType.lv_entity_id

-- `PropertyType::value`.
unfoldable pub type_value : PropertyType → Text
type_value PropertyType.lvm = codes "mayastor"
type_value PropertyType.unknown = []
type_value PropertyType.lv_name = codes "mayastor.lv.name"
type_value PropertyType.lv_share = codes "mayastor.lv.share"
type_value PropertyType.lv_allowed_hosts = codes "mayastor.lv.allowed_hosts"
type_value PropertyType.lv_entity_id = codes "mayastor.lv.entity_id"

unfoldable pub key : Property → Text
unfolding type_ type_value
key (Property.unknown k _) = k
key p = type_value (type_ p)

-- `PropertyType::from_str`; its error says nothing.
unfoldable pub from_str : Text → Option PropertyType
unfolding type_value
from_str k =
    if same_text k (type_value PropertyType.lvm)
    then some PropertyType.lvm
    else if same_text k (type_value PropertyType.lv_name)
    then some PropertyType.lv_name
    else if same_text k (type_value PropertyType.lv_share)
    then some PropertyType.lv_share
    else if same_text k (type_value PropertyType.lv_allowed_hosts)
    then some PropertyType.lv_allowed_hosts
    else if same_text k (type_value PropertyType.lv_entity_id)
    then some PropertyType.lv_entity_id
    else none

-- `Property::value`.
unfoldable pub value : Property → Option Text
unfolding value_str join
value Property.lvm = none
value (Property.unknown _ v) = some v
value (Property.lv_name name) = some name
value (Property.lv_share protocol) = some (value_str protocol)
value (Property.lv_allowed_hosts hosts) = some (join b',' hosts)
value (Property.lv_entity_id entity_id) = some entity_id

-- `format!("{key}={value}")`, or the key alone.
unfoldable pub tag_of : Text → Option Text → Text
tag_of k none = k
tag_of k (some v) = k ++ b'=' ∷ v

unfoldable pub tag : Property → Text
unfolding key value tag_of
tag p = tag_of (key p) (value p)

unfoldable pub add : Property → Text
unfolding key value tag_of
add p = codes "--addtag=" ++ tag_of (key p) (value p)

unfoldable pub del : Property → Text
unfolding key value tag_of
del p = codes "--deltag=" ++ tag_of (key p) (value p)

-- What `new_known` makes of a type.
unfoldable pub known : Text → PropertyType → Option Property
unfolding from_value split non_empty
known v PropertyType.lvm = some Property.lvm
known v PropertyType.unknown = none
known v PropertyType.lv_name = some (Property.lv_name v)
known v PropertyType.lv_share = some (Property.lv_share (from_value v))
known v PropertyType.lv_allowed_hosts = some (Property.lv_allowed_hosts (non_empty (split b',' v)))
known v PropertyType.lv_entity_id = some (Property.lv_entity_id v)

unfoldable pub new_known : Text → Text → Option Property
unfolding from_str known
new_known k v = from_str k >>= known v

abbrev pub or_unknown : Text → Text → Option Property → Property
or_unknown k v none = Property.unknown k v
or_unknown k v (some p) = p

-- What `new` makes of the parts of a tag: a key and a value, or the whole tag for a key.
unfoldable pub from_parts : Text → List Text → Property
unfolding new_known
from_parts t (k ∷ v ∷ []) = or_unknown k v (new_known k v)
from_parts t _ = or_unknown t [] (new_known t [])

unfoldable pub new : Text → Property
unfolding from_parts split
new t = from_parts t (split b'=' t)
