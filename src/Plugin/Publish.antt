-- ===== src/Plugin/Publish.antt =====
-- publish of nextdns.go: what the handler says of a query to other plugins.
use coredns_nextdns.Prelude.{List, [], ◌∷◌, Option, none, some, if◌then◌else◌}
use coredns_nextdns.Prelude.Text.{Text, codes, text_discrete, is_empty}
use coredns_nextdns.Prelude.Dict
use coredns_nextdns.Prelude.Dict.{Dict}
use coredns_nextdns.Device.{ClientInfo}

-- The metadata of a query, as the values of its labels.
abbrev pub Metadata : Type 0
Metadata = Dict Text Text

-- profileLabel
abbrev pub profile_label : Text
profile_label = codes "nextdns/profile"

-- metadata.ValueFunc, with the call of the function that it returns
unfoldable pub value_of : Text → Option Metadata → Option Text
value_of label none = none
value_of label (some m) = Dict.get text_discrete label m

abbrev pub profile_used : Text
profile_used = codes "nextdns/profile-used"

-- The map literal of publish.
unfoldable pub device_labels : ClientInfo → List (Text × Text)
device_labels ci =
    (codes "nextdns/device-id", ci.id)
    ∷ (codes "nextdns/device-name", ci.name)
    ∷ (codes "nextdns/device-model", ci.model)
    ∷ (codes "nextdns/device-ip", ci.ip)
    ∷ []

-- The loop over the labels, in the order in which `range` walks them.
unfoldable pub set_labels : List (Text × Text) → Metadata → Metadata
set_labels [] m = m
set_labels ((label, v) ∷ rest) m =
    set_labels rest (if is_empty v then m else Dict.put text_discrete label v m)

-- publish; `none` is a query without the metadata plugin.
unfoldable pub publish :
    (List (Text × Text) → List (Text × Text))
    → Text
    → ClientInfo
    → Option Metadata
    → Option Metadata
publish order profile ci none = none
publish order profile ci (some m) =
    some (set_labels (order (device_labels ci)) (Dict.put text_discrete profile_used profile m))
