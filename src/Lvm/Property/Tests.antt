-- ===== src/Lvm/Property/Tests.antt =====
-- Runs of the model at concrete inputs, and instances of its theorems.
use mayastor.Common.{[], ◌∷◌, ◌≡◌, true, refl}
use mayastor.Common.Text.{codes, contains}
use mayastor.Lvm.Property.{Property, new, tag, value, del}
use mayastor.Lvm.Property.RoundTrip.{IsStorable, new-tag, new-equals}

abbrev hosts : Property
hosts = Property.lv_allowed_hosts (codes "nqn.a" ∷ codes "nqn.b" ∷ [])

hosts-tag : tag hosts ≡ codes "mayastor.lv.allowed_hosts=nqn.a,nqn.b"
unfolding tag
hosts-tag = refl

hosts-del : del hosts ≡ codes "--deltag=mayastor.lv.allowed_hosts=nqn.a,nqn.b"
unfolding del
hosts-del = refl

hosts-IsStorable : IsStorable hosts
unfolding IsStorable contains
hosts-IsStorable = ((refl, refl, refl), ((refl, refl, refl), tt))

new-tag_example : new (tag hosts) ≡ hosts
new-tag_example = new-tag hosts hosts-IsStorable

abbrev odd_name : Property
odd_name = Property.lv_name (codes "a=b")

odd_name_value : contains b'=' (codes "a=b") ≡ true
unfolding contains
odd_name_value = refl

new-equals_example : new (tag odd_name) ≡ Property.unknown (tag odd_name) []
new-equals_example = new-equals odd_name (codes "a=b") (unfold value in refl) odd_name_value
