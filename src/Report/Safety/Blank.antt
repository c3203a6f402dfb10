-- ===== src/Report/Safety/Blank.antt =====
-- The values of a report with their texts taken out: what is left are numbers and flags, whether
-- the report is of a link, and which points count people and which count bots.
use shortq.Prelude.{
  ℕ, zero, suc, ◌-◌, ◌/◌, ◌==◌, ◌||◌, List, [], ◌∷◌, ◌≡◌, refl, ap, ◌∙◌, text_eq_iff, Text, codes,
  map, take, length, is_empty, if◌then◌else◌, text_eq, ltb, Bool-cases, inl, inr,
}
use shortq.State.Platform.{Numbers}
use shortq.State.ReportData.{Subject, Point, Report, RankedLink, SafeEvent}
use shortq.Report.Lines.{Coord, coords, chart_coords, labelled}
use shortq.Report.Charts.{max_clicks, clicks_of}

unfoldable pub blank_label : Text → Text
blank_label t =
    if text_eq t (codes "human")
    then codes "human"
    else if text_eq t (codes "bot")
    then codes "bot"
    else []

unfoldable pub blank_point : Point → Point
blank_point p = record p { label = blank_label p.label }

unfoldable pub blank_coord : Coord → Coord
blank_coord c = record c { day = blank_label c.day }

unfoldable pub blank_ranked : RankedLink → RankedLink
blank_ranked x = record x { slug = []; title = []; visibility = []; deleted_at = [] }

unfoldable pub blank_event : SafeEvent → SafeEvent
blank_event x = record {
  created_at = [];
  slug = [];
  country_code = [];
  device = [];
  browser = [];
  os = [];
  referrer_host = [];
  utm_campaign = [];
  is_bot = x.is_bot;
  route_type = [];
  status_code = x.status_code;
}

blank_subject : Subject → Subject
blank_subject s = record {
  type = if text_eq s.type (codes "link") then codes "link" else [];
  title = [];
  slug = [];
  visibility = [];
  owner_name = [];
  name = [];
  email = [];
}

unfoldable pub blank_report : Report → Report
unfolding blank_subject
blank_report r = record r {
  subject = blank_subject r.subject;
  from = [];
  to = [];
  timezone = [];
  summary = record r.summary { peak_day = [] };
  daily = map blank_point r.daily;
  breakdown = λ k. map blank_point (r.breakdown k);
  top_links = map blank_ranked r.top_links;
  recent_events = map blank_event r.recent_events;
}

pub length-blank : (ps : List Point) → length (map blank_point ps) ≡ length ps
length-blank [] = refl
length-blank (p ∷ ps) = ap suc (length-blank ps)

pub max_clicks-blank : (ps : List Point) → max_clicks (map blank_point ps) ≡ max_clicks ps
unfolding max_clicks blank_point
max_clicks-blank [] = refl
max_clicks-blank (p ∷ ps) = rw (max_clicks-blank ps)

pub take-blank :
    (k : ℕ) (ps : List Point) → take k (map blank_point ps) ≡ map blank_point (take k ps)
take-blank zero ps = refl
take-blank (suc k) [] = refl
take-blank (suc k) (p ∷ ps) = ap (blank_point p ∷◌) (take-blank k ps)

pub is_empty-blank : (ps : List Point) → is_empty (map blank_point ps) ≡ is_empty ps
is_empty-blank [] = refl
is_empty-blank (p ∷ ps) = refl

coords-blank :
    (n : Numbers) (span most i : ℕ) (ps : List Point)
    → coords n span most i (map blank_point ps) ≡ map blank_coord (coords n span most i ps)
unfolding coords blank_point blank_coord
coords-blank n span most i [] = refl
coords-blank n span most i (p ∷ ps) = rw (coords-blank n span most (suc i) ps)

pub chart_coords-blank :
    (n : Numbers) (ps : List Point)
    → chart_coords n (map blank_point ps) ≡ map blank_coord (chart_coords n ps)
unfolding chart_coords
chart_coords-blank n ps =
    rw (length-blank ps, max_clicks-blank ps)
      (coords-blank n (if ltb (length ps) 2 then 1 else length ps - 1) (max_clicks ps) 0 ps)

pub labelled-blank :
    (count i : ℕ) (cs : List Coord)
    → labelled count i (map blank_coord cs) ≡ map blank_coord (labelled count i cs)
unfolding labelled
labelled-blank count i [] = refl
labelled-blank count i (c ∷ cs) = elim (Bool-cases (i == 0 || i == count - 1 || i == count / 2)) [
  | inl chosen ↦ rw (chosen, labelled-blank count (suc i) cs)
  | inr left ↦ rw (left, labelled-blank count (suc i) cs)
]

-- Whether a key counts people, or bots, can be read off its blank.
abbrev IsCounted : Text → Type 0
IsCounted key = (t : Text) → text_eq (blank_label t) key ≡ text_eq t key

pub human_counted : (t : Text) → text_eq (blank_label t) (codes "human") ≡ text_eq t (codes "human")
unfolding blank_label text_eq
human_counted t = elim (Bool-cases (text_eq t (codes "human"))) [
  | inl human ↦ rw human
  | inr other ↦ elim (Bool-cases (text_eq t (codes "bot"))) [
    | inl bot ↦ rw (other, bot)
    | inr neither ↦ rw (other, neither)
  ]
]

pub bot_counted : (t : Text) → text_eq (blank_label t) (codes "bot") ≡ text_eq t (codes "bot")
unfolding blank_label text_eq
bot_counted t = elim (Bool-cases (text_eq t (codes "human"))) [
  | inl human ↦ rw ((text_eq_iff t (codes "human")).0 human)
  | inr other ↦ elim (Bool-cases (text_eq t (codes "bot"))) [
    | inl bot ↦ rw (other, bot)
    | inr neither ↦ rw (other, neither)
  ]
]

pub clicks_of-blank :
    (key : Text) (n : ℕ) (ps : List Point)
    → IsCounted key
    → clicks_of key n (map blank_point ps) ≡ clicks_of key n ps
unfolding clicks_of blank_point
clicks_of-blank key n [] counted = refl
clicks_of-blank key n (p ∷ ps) counted =
    ap (λ b. clicks_of key (if b then p.clicks else n) (map blank_point ps)) (counted p.label)
    ∙ clicks_of-blank key (if text_eq p.label key then p.clicks else n) ps counted
