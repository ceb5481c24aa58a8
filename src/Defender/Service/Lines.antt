-- ===== src/Defender/Service/Lines.antt =====
-- The items of the access log are plain.
use k3df.Base.{
  ◌≡◌, refl, String, Option, none, some, List, [], ◌∷◌, All, Result, ok, ok_inj, bind-eq-ok,
  text_dec,
}
use k3df.Json.{Value, find}
use k3df.Defender.Evidence.{Evidence}
use k3df.Defender.Collect.Pattern.{Entry, read_line}
use k3df.Defender.Collect.Url.{Url, urlsplit}
use k3df.Defender.Collect.Sources.{Library, add_access, access_item, access_items}
use k3df.Defender.Service.Plain.{IsPlain}

module _ (l : Library) (path : String) (now : Value) where
  access_item-IsPlain :
      (line : String) (e : Entry) (url : Url) → IsPlain (access_item l path now line e url)
  unfolding find text_dec
  access_item-IsPlain line e url = (_, refl, refl, refl)

  add_access-IsPlain :
      (line : String) (o : Option Entry) (rest : Result (List Evidence)) (es : List Evidence)
      → ((fs : List Evidence) → rest ≡ ok fs → All IsPlain fs)
      → add_access l path now line o rest ≡ ok es
      → All IsPlain es
  add_access-IsPlain line none rest es ih h = ih es h
  add_access-IsPlain line (some e) rest es ih h =
      let (url, hu, h₁) = bind-eq-ok (urlsplit l.checks e.target) _ h in
      let (fs, hf, h₂) = bind-eq-ok rest _ h₁ in
      rw (← ok_inj h₂) (access_item-IsPlain line e url, ih fs hf)

  pub access_items-IsPlain :
      (lines : List String) (es : List Evidence)
      → access_items l path now lines ≡ ok es
      → All IsPlain es
  unfolding access_items
  access_items-IsPlain [] es h = rw (← ok_inj h) tt
  access_items-IsPlain (line ∷ lines) es h =
      add_access-IsPlain line (read_line l.digit line) (access_items l path now lines) es
        (λ fs e. access_items-IsPlain lines fs e) h
