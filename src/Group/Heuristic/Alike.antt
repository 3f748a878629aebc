-- ===== src/Group/Heuristic/Alike.antt =====
-- Records with one attribute key agree in their attributes: `attributeKey` of
-- backend/internal/correlate/group/heuristic.go, which joins them with bars.
use mathlib.Core.List.{append_assoc}
use siem_v.Prelude.{
  ◌≡◌, ◌≢◌, refl, sym, ap, ◌∙◌, Bool, true, false, some, List, [], ◌∷◌, ◌++◌, any, ◌==◌, Memᴰ, All,
  All-map, All-mem, arith,
}
use siem_v.Prelude.Text.{Str, str_eq, str_eq_refl, to_upper}
use siem_v.Prelude.Time.{is_zero}
use siem_v.Group.Heuristic.{HeuristicRecord, attribute_key}
use siem_v.Group.Heuristic.Clusters.{HasKey}

abbrev pub has_bar : Str → Bool
has_bar s = any (λ c. c == b'|') s

-- No bar in what stands before the path, nor in the method behind it.
pub record IsPlain (r : HeuristicRecord) : Type 0 where
  pub plain_client : has_bar r.client_ip ≡ false
  pub plain_host : has_bar r.host ≡ false
  pub plain_method : has_bar (to_upper r.method) ≡ false

-- A record with all of its attributes, and those that it has.
pub record HasAttributes (client host path method : Str) (r : HeuristicRecord) : Type 0 where
  pub of_client : r.client_ip ≡ client
  pub of_host : r.host ≡ host
  pub of_path : r.path ≡ path
  pub of_method : to_upper r.method ≡ method
  pub known_client : r.client_ip ≢ []
  pub known_host : r.host ≢ []
  pub known_path : r.path ≢ []
  pub known_method : r.method ≢ []
  pub timed : is_zero r.event_time ≡ false

cut_first :
    (a b x y : Str)
    → has_bar a ≡ false
    → has_bar b ≡ false
    → a ++ b'|' ∷ x ≡ b ++ b'|' ∷ y
    → (a ≡ b) × (x ≡ y)
cut_first [] [] x y p q e = (refl, ground (arith, e))
cut_first [] (d ∷ b) x y p q e = absurd (ground (arith, e))
cut_first (c ∷ a) [] x y p q e = absurd (ground (arith, e))
cut_first (c ∷ a) (d ∷ b) x y p q e =
    let head : c ≡ d = ground (arith, e) in
    let tail : a ++ b'|' ∷ x ≡ b ++ b'|' ∷ y = ground (arith, e) in
    let rest = cut_first a b x y (ground arith) (ground arith) tail in (cc (head, rest.0), rest.1)

bar_within : (a x : Str) → has_bar (a ++ b'|' ∷ x) ≡ true
bar_within [] x = refl
bar_within (c ∷ a) x = ground (arith, bar_within a x)

cut_last :
    (a b x y : Str)
    → has_bar x ≡ false
    → has_bar y ≡ false
    → a ++ b'|' ∷ x ≡ b ++ b'|' ∷ y
    → (a ≡ b) × (x ≡ y)
cut_last [] [] x y p q e = (refl, ground (arith, e))
cut_last [] (d ∷ b) x y p q e =
    let inner : x ≡ b ++ b'|' ∷ y = ground (arith, e) in
    absurd (ground (arith, ap has_bar inner, bar_within b y))
cut_last (c ∷ a) [] x y p q e =
    let inner : a ++ b'|' ∷ x ≡ y = ground (arith, e) in
    absurd (ground (arith, ap has_bar inner, bar_within a x))
cut_last (c ∷ a) (d ∷ b) x y p q e =
    let head : c ≡ d = ground (arith, e) in
    let tail : a ++ b'|' ∷ x ≡ b ++ b'|' ∷ y = ground (arith, e) in
    let rest = cut_last a b x y p q tail in (cc (head, rest.0), rest.1)

filled : (s : Str) → str_eq s [] ≡ false → s ≢ []
filled s h e = absurd (ground (arith, ap (λ t. str_eq t []) e, str_eq_refl []))

text_of : HeuristicRecord → Str
text_of r = r.client_ip ++ b'|' ∷ r.host ++ b'|' ∷ r.path ++ b'|' ∷ to_upper r.method

attribute_key-some :
    (r : HeuristicRecord) (key : Str)
    → attribute_key r ≡ some key
    → (text_of r ≡ key) × HasAttributes r.client_ip r.host r.path (to_upper r.method) r
unfolding attribute_key text_of
attribute_key-some r key h = (
  ground arith,
  record {
    of_client = refl;
    of_host = refl;
    of_path = refl;
    of_method = refl;
    known_client = filled r.client_ip (ground arith);
    known_host = filled r.host (ground arith);
    known_path = filled r.path (ground arith);
    known_method = filled r.method (ground arith);
    timed = ground arith;
  },
)

-- Records with one key agree, where the bars part the attributes.
pub HasAttributes-of_HasKey :
    (records : List HeuristicRecord) (key : Str) (a r : HeuristicRecord)
    → IsPlain a
    → IsPlain r
    → HasKey records key a
    → HasKey records key r
    → HasAttributes a.client_ip a.host a.path (to_upper a.method) r
unfolding text_of
HasAttributes-of_HasKey records key a r pa pr ka kr =
    let (ta, ha) = attribute_key-some a key ka.1 in
    let (tr, hr) = attribute_key-some r key kr.1 in
    let (front, method) =
      cut_last _ _ (to_upper r.method) (to_upper a.method) pr.plain_method pa.plain_method
        (tr ∙ sym ta) in
    let (client, inner) =
      cut_first r.client_ip a.client_ip (r.host ++ b'|' ∷ r.path) (a.host ++ b'|' ∷ a.path)
        pr.plain_client pa.plain_client
        (sym (append_assoc r.client_ip (b'|' ∷ r.host) (b'|' ∷ r.path))
          ∙ front
          ∙ append_assoc a.client_ip (b'|' ∷ a.host) (b'|' ∷ a.path)) in
    let (host, path) = cut_first r.host a.host r.path a.path pr.plain_host pa.plain_host inner in
    record {
      of_client = client;
      of_host = host;
      of_path = path;
      of_method = method;
      known_client = hr.known_client;
      known_host = hr.known_host;
      known_path = hr.known_path;
      known_method = hr.known_method;
      timed = hr.timed;
    }

-- The records of a cluster are of the input, and agree.
pub record IsAlike (records cluster : List HeuristicRecord) : Type 0 where
  pub client : Str
  pub host : Str
  pub path : Str
  pub method : Str
  pub own : All (λ r. Memᴰ r records × HasAttributes client host path method r) cluster

pub IsAlike-of_HasKey :
    (records : List HeuristicRecord) (key : Str) (cluster : List HeuristicRecord)
    → All IsPlain records
    → All (HasKey records key) cluster
    → IsAlike records cluster
IsAlike-of_HasKey records key [] plain own = record {
  client = [];
  host = [];
  path = [];
  method = [];
  own = tt;
}
IsAlike-of_HasKey records key (a ∷ cluster) plain own = record {
  client = a.client_ip;
  host = a.host;
  path = a.path;
  method = to_upper a.method;
  own =
      All-map (HasKey records key) _ (a ∷ cluster)
        (λ r k. (
          k.0,
          HasAttributes-of_HasKey records key a r (All-mem IsPlain plain own.0.0)
              (All-mem IsPlain plain k.0) own.0 k,
        ))
        own;
}
