-- ===== src/Dashboard/Loading.antt =====
-- The poll of page.tsx: what a load leaves of the page.
use beauty_awg.Base.{
  ◌≡◌, refl, ap, ◌∙◌, sym, true, false, Option, none, some, List, arith, Text, ◌==◌, eq_iff,
  eq_refl, codes, if◌then◌else◌, Bool-cases, inl, inr,
}
use beauty_awg.Base.Dict.{Dict, lookup, insert, lookup-insert}
use beauty_awg.Json.{Json}
use beauty_awg.Groups.Layout.{parse_layout}
use beauty_awg.Dashboard.{Page, Payload, Stringify, set_if_changed, take_payload, is_seen}

-- The JSON of a payload is not that of other values of the page.
pub record IsFaithful (J : Stringify) (d : Payload) (p : Page) : Type 0 where
  pub nodes : J.nodes d.nodes ≡ J.nodes p.nodes → d.nodes ≡ p.nodes
  pub clients : J.clients d.clients ≡ J.clients p.clients → d.clients ≡ p.clients
  pub links : J.links d.links ≡ J.links p.links → d.links ≡ p.links
  pub groups :
      J.groups (parse_layout d.layout).groups ≡ J.groups p.groups
      → (parse_layout d.layout).groups ≡ p.groups

-- A signature that was seen under the key is the state's.
abbrev Agrees : Text → Text → Page → Type 0
Agrees key sig p = (s : Text) → lookup key p.seen ≡ some s → s ≡ sig

pub record IsCoherent (J : Stringify) (p : Page) : Type 0 where
  pub nodes : Agrees (codes "nodes") (J.nodes p.nodes) p
  pub clients : Agrees (codes "clients") (J.clients p.clients) p
  pub links : Agrees (codes "links") (J.links p.links) p
  pub groups : Agrees (codes "groups") (J.groups p.groups) p

-- The page with the four payloads, whatever was seen.
abbrev pub Holds : Payload → Page → Type 0
Holds d p =
    (p.nodes ≡ d.nodes)
    × (p.clients ≡ d.clients)
    × (p.links ≡ d.links)
    × (p.groups ≡ (parse_layout d.layout).groups)

is_seen_iff : (o : Option Text) (sig : Text) → is_seen o sig ≡ true → o ≡ some sig
unfolding is_seen
is_seen_iff none sig h = cc
is_seen_iff (some s) sig h = ground (arith, eq_iff s sig)

-- One comparison of a load, whose setter leaves the signatures.
module _ (key sig : Text) (set : Page → Page) (quiet : (q : Page) → (set q).seen ≡ q.seen)
    (p : Page) where
  abbrev after : Page
  after = set_if_changed key sig set p

  seen_here : lookup key after.seen ≡ some sig
  unfolding set_if_changed
  seen_here = elim (Bool-cases (is_seen (lookup key p.seen) sig)) [
    | inl old ↦ rw old (is_seen_iff (lookup key p.seen) sig old)
    | inr new ↦
        rw (new, quiet (record p { seen = insert key sig p.seen }))
          (lookup-insert key key sig p.seen
            ∙ ap (λ b. if b then some sig else lookup key p.seen) (eq_refl key))
  ]

  seen_there : (k : Text) → (key == k) ≡ false → lookup k after.seen ≡ lookup k p.seen
  unfolding set_if_changed
  seen_there k ne = elim (Bool-cases (is_seen (lookup key p.seen) sig)) [
    | inl old ↦ rw old refl
    | inr new ↦
        rw (new, quiet (record p { seen = insert key sig p.seen }))
          (lookup-insert k key sig p.seen ∙ ap (λ b. if b then some sig else lookup k p.seen) ne)
  ]

  kept :
      {A : Type 0} (f : Page → A)
      → ((d : Dict Text) → f (set (record p { seen = d })) ≡ f p)
      → f after ≡ f p
  unfolding set_if_changed
  kept f h = elim (Bool-cases (is_seen (lookup key p.seen) sig)) [
    | inl old ↦ rw old refl
    | inr new ↦ rw new (h (insert key sig p.seen))
  ]

  taken :
      {A : Type 0} (f : Page → A) (value : A)
      → ((q : Page) → f (set q) ≡ value)
      → (lookup key p.seen ≡ some sig → f p ≡ value)
      → f after ≡ value
  unfolding set_if_changed
  taken f value h k = elim (Bool-cases (is_seen (lookup key p.seen) sig)) [
    | inl old ↦ rw old (k (is_seen_iff (lookup key p.seen) sig old))
    | inr new ↦ rw new (h (record p { seen = insert key sig p.seen }))
  ]

-- The four keys are different.
abbrev n_key : Text
n_key = codes "nodes"

abbrev c_key : Text
c_key = codes "clients"

abbrev l_key : Text
l_key = codes "links"

abbrev g_key : Text
g_key = codes "groups"

agrees :
    {A : Type 0} (sig : A → Text) (a b : A) (o : Option Text) (s : Text)
    → o ≡ some (sig a)
    → b ≡ a
    → o ≡ some s
    → s ≡ sig b
agrees sig a b o s seen same h = ground (arith, ap sig same)

module _ (J : Stringify) (d : Payload) (p : Page) (F : IsFaithful J d p) (h : IsCoherent J p) where
  abbrev groups : List Json
  groups = (parse_layout d.layout).groups

  abbrev p1 : Page
  p1 = set_if_changed n_key (J.nodes d.nodes) (λ q. record q { nodes = d.nodes }) p

  abbrev p2 : Page
  p2 = set_if_changed c_key (J.clients d.clients) (λ q. record q { clients = d.clients }) p1

  abbrev p3 : Page
  p3 = set_if_changed l_key (J.links d.links) (λ q. record q { links = d.links }) p2

  abbrev p4 : Page
  p4 = set_if_changed g_key (J.groups groups) (λ q. record q { groups = groups }) p3

  there1 : (k : Text) → (n_key == k) ≡ false → lookup k p1.seen ≡ lookup k p.seen
  there1 = seen_there n_key (J.nodes d.nodes) (λ q. record q { nodes = d.nodes }) (λ q. refl) p

  there2 : (k : Text) → (c_key == k) ≡ false → lookup k p2.seen ≡ lookup k p1.seen
  there2 =
      seen_there c_key (J.clients d.clients) (λ q. record q { clients = d.clients }) (λ q. refl) p1

  there3 : (k : Text) → (l_key == k) ≡ false → lookup k p3.seen ≡ lookup k p2.seen
  there3 = seen_there l_key (J.links d.links) (λ q. record q { links = d.links }) (λ q. refl) p2

  there4 : (k : Text) → (g_key == k) ≡ false → lookup k p4.seen ≡ lookup k p3.seen
  there4 = seen_there g_key (J.groups groups) (λ q. record q { groups = groups }) (λ q. refl) p3

  -- What was seen after each comparison.
  seen_all :
      (lookup n_key p4.seen ≡ some (J.nodes d.nodes))
      × (lookup c_key p4.seen ≡ some (J.clients d.clients))
      × (lookup l_key p4.seen ≡ some (J.links d.links))
      × (lookup g_key p4.seen ≡ some (J.groups groups))
  unfolding codes ◌==◌
  seen_all = (
    there4 n_key refl
        ∙ (there3 n_key refl
            ∙ (there2 n_key refl
                ∙ seen_here n_key (J.nodes d.nodes) (λ q. record q { nodes = d.nodes }) (λ q. refl)
                    p)),
    there4 c_key refl
        ∙ (there3 c_key refl
            ∙ seen_here c_key (J.clients d.clients) (λ q. record q { clients = d.clients })
                (λ q. refl) p1),
    there4 l_key refl
        ∙ seen_here l_key (J.links d.links) (λ q. record q { links = d.links }) (λ q. refl) p2,
    seen_here g_key (J.groups groups) (λ q. record q { groups = groups }) (λ q. refl) p3,
  )

  kept1 :
      {A : Type 0} (f : Page → A)
      → ((e : Dict Text) → f (record p { nodes = d.nodes; seen = e }) ≡ f p)
      → f p1 ≡ f p
  kept1 f = kept n_key (J.nodes d.nodes) (λ q. record q { nodes = d.nodes }) (λ q. refl) p f

  kept2 :
      {A : Type 0} (f : Page → A)
      → ((e : Dict Text) → f (record p1 { clients = d.clients; seen = e }) ≡ f p1)
      → f p2 ≡ f p1
  kept2 f =
      kept c_key (J.clients d.clients) (λ q. record q { clients = d.clients }) (λ q. refl) p1 f

  kept3 :
      {A : Type 0} (f : Page → A)
      → ((e : Dict Text) → f (record p2 { links = d.links; seen = e }) ≡ f p2)
      → f p3 ≡ f p2
  kept3 f = kept l_key (J.links d.links) (λ q. record q { links = d.links }) (λ q. refl) p2 f

  kept4 :
      {A : Type 0} (f : Page → A)
      → ((e : Dict Text) → f (record p3 { groups = groups; seen = e }) ≡ f p3)
      → f p4 ≡ f p3
  kept4 f = kept g_key (J.groups groups) (λ q. record q { groups = groups }) (λ q. refl) p3 f

  Holds-all : Holds d p4
  unfolding codes ◌==◌
  Holds-all = (
    kept4 (λ q. q.nodes) (λ e. refl)
        ∙ (kept3 (λ q. q.nodes) (λ e. refl)
            ∙ (kept2 (λ q. q.nodes) (λ e. refl)
                ∙ taken n_key (J.nodes d.nodes) (λ q. record q { nodes = d.nodes }) (λ q. refl) p
                    (λ q. q.nodes) d.nodes (λ q. refl) (λ e. sym (F.nodes (h.nodes _ e))))),
    kept4 (λ q. q.clients) (λ e. refl)
        ∙ (kept3 (λ q. q.clients) (λ e. refl)
            ∙ taken c_key (J.clients d.clients) (λ q. record q { clients = d.clients }) (λ q. refl)
                p1 (λ q. q.clients) d.clients (λ q. refl)
                (λ e.
                  kept1 (λ q. q.clients) (λ e. refl)
                  ∙ sym (F.clients (h.clients _ (sym (there1 c_key refl) ∙ e))))),
    kept4 (λ q. q.links) (λ e. refl)
        ∙ taken l_key (J.links d.links) (λ q. record q { links = d.links }) (λ q. refl) p2
            (λ q. q.links) d.links (λ q. refl)
            (λ e.
              kept2 (λ q. q.links) (λ e. refl)
              ∙ (kept1 (λ q. q.links) (λ e. refl)
                  ∙ sym (F.links (h.links _ (sym (there2 l_key refl ∙ there1 l_key refl) ∙ e))))),
    taken g_key (J.groups groups) (λ q. record q { groups = groups }) (λ q. refl) p3 (λ q. q.groups)
        groups (λ q. refl)
        (λ e.
          kept3 (λ q. q.groups) (λ e. refl)
          ∙ (kept2 (λ q. q.groups) (λ e. refl)
              ∙ (kept1 (λ q. q.groups) (λ e. refl)
                  ∙ sym (
                      F.groups (
                        h.groups _ (
                          sym (there3 g_key refl ∙ (there2 g_key refl ∙ there1 g_key refl))
                          ∙ e)))))),
  )

  -- With a JSON that tells values apart, and signatures that agree with the page, the page holds the
  -- payload after it is taken, though a part that did not change is not set again, and the
  -- signatures agree with it.
  pub take_payload-Holds : Holds d (take_payload J d p) × IsCoherent J (take_payload J d p)
  unfolding take_payload
  take_payload-Holds =
      let (n, c, l, g) = seen_all in
      let (a, b, e, f) = Holds-all in
      (
        Holds-all,
        record {
          nodes = λ s k. agrees J.nodes d.nodes _ _ s n a k;
          clients = λ s k. agrees J.clients d.clients _ _ s c b k;
          links = λ s k. agrees J.links d.links _ _ s l e k;
          groups = λ s k. agrees J.groups groups _ _ s g f k;
        },
      )
