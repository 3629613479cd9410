-- ===== src/Home/Sound.antt =====
-- What a payload satisfies that validateInformationHomePayload of src/models/home/informationHome.ts accepts.
use my_note_book.Base.{
  String, ◌&&◌, ◌||◌, ℕ, ◌+◌, ◌≤◌, pos, negsuc, leb_int, ◌+ℤ◌, Bool, true, false, not, Option, none,
  some, List, [], ◌∷◌, length, length-map, if◌then◌else◌, All, AreDistinct, AreDistinct-of_length,
  arith, Option-cases, inl, inr, ◌≡◌, refl, sym, ◌∙◌,
}
use my_note_book.Home.Values.{Number, whole, fraction, not_a_number, infinite, is_integer}
use my_note_book.Home.Widgets.{
  InformationHomeGridPosition, InformationHomeWidget, InformationHomePayload, is_widget_type,
}
use my_note_book.Home.Validate.{
  whole_of, title_length, list_length, check_position, check_layout, check_widget, check_widgets,
  ids_of_widgets, validate_information_home_payload,
}

abbrev pub IsWhole : Number → ℕ → Type 0
IsWhole value n = value ≡ whole (pos n)

-- A position of whole numbers, on the grid, that is not empty.
abbrev pub IsOnGrid : ℕ → InformationHomeGridPosition → Type 0
IsOnGrid columns position =
    (x y w h : ℕ) × IsWhole position.x x
    × IsWhole position.y y
    × IsWhole position.w w
    × IsWhole position.h h
    × (1 ≤ w)
    × (1 ≤ h)
    × (x + w ≤ columns)

abbrev pub IsOnGridIfAny : ℕ → Option InformationHomeGridPosition → Type 0
IsOnGridIfAny columns none = Unit
IsOnGridIfAny columns (some position) = IsOnGrid columns position

pub record IsSoundWidget (widget : InformationHomeWidget) : Type 0 where
  pub known : is_widget_type widget.widget_type ≡ true
  pub limited : (n : ℕ) × IsWhole widget.limit n × (1 ≤ n) × (n ≤ 50)
  pub titled : title_length widget.settings.title ≤ 80
  pub few_todos : list_length widget.settings.todos ≤ 100
  pub few_events : list_length widget.settings.events ≤ 100
  pub on_desktop : IsOnGrid 12 widget.desktop
  pub on_compact : IsOnGridIfAny 6 widget.compact

pub record IsSoundPayload (payload : InformationHomePayload) : Type 0 where
  pub versioned : payload.layout_version ≡ 1
  pub few_widgets : length payload.widgets ≤ 20
  pub distinct : AreDistinct (ids_of_widgets payload.widgets)
  pub sound : All IsSoundWidget payload.widgets

IsWhole-at_least :
    (value : Number) (least : ℕ)
    → is_integer value ≡ true
    → leb_int (pos least) (whole_of value) ≡ true
    → (n : ℕ) × IsWhole value n × (least ≤ n)
unfolding leb_int
IsWhole-at_least (whole (pos n)) least h k = (n, refl, ground (arith, k))
IsWhole-at_least (whole (negsuc n)) least h k = ground (arith, k)
IsWhole-at_least (fraction value) least h k = ground (arith, h)
IsWhole-at_least not_a_number least h k = ground (arith, h)
IsWhole-at_least infinite least h k = ground (arith, h)

sum_at_most :
    (a b : Number) (m n columns : ℕ)
    → IsWhole a m
    → IsWhole b n
    → leb_int (whole_of a +ℤ whole_of b) (pos columns) ≡ true
    → m + n ≤ columns
unfolding leb_int ◌+ℤ◌
sum_at_most a b m n columns ea eb h = ground (arith, ea, eb, h)

passed :
    (refused : Bool) (error : String) (rest : Option String)
    → (if refused then some error else rest) ≡ none
    → (refused ≡ false) × (rest ≡ none)
passed true error rest e = ground (arith, e)
passed false error rest e = (refl, e)

all_four :
    (a b c d : Bool)
    → not (a && b && c && d) ≡ false
    → (a ≡ true) × (b ≡ true) × (c ≡ true) × (d ≡ true)
all_four a b c d h = (ground (arith, h), ground (arith, h), ground (arith, h), ground (arith, h))

all_five :
    (a b c d f : Bool)
    → (not a || not b || not c || not d || not f) ≡ false
    → (a ≡ true) × (b ≡ true) × (c ≡ true) × (d ≡ true) × (f ≡ true)
all_five a b c d f h =
    (ground (arith, h), ground (arith, h), ground (arith, h), ground (arith, h), ground (arith, h))

check_position-IsOnGrid :
    (position : InformationHomeGridPosition) (columns : ℕ)
    → check_position position columns ≡ none
    → IsOnGrid columns position
unfolding check_position
check_position-IsOnGrid position columns e =
    let (integers, others) = passed _ _ _ e in
    let (outside, _) = passed _ _ _ others in
    let (ix, iy, iw, ih) = all_four _ _ _ _ integers in
    let (lx, ly, lw, lh, sum) = all_five _ _ _ _ _ outside in
    let (x, is_x, least_x) = IsWhole-at_least position.x 0 ix lx in
    let (y, is_y, least_y) = IsWhole-at_least position.y 0 iy ly in
    let (w, is_w, least_w) = IsWhole-at_least position.w 1 iw lw in
    let (h, is_h, least_h) = IsWhole-at_least position.h 1 ih lh in
    (
      x,
      y,
      w,
      h,
      is_x,
      is_y,
      is_w,
      is_h,
      least_w,
      least_h,
      sum_at_most position.x position.w x w columns is_x is_w sum,
    )

check_layout-IsOnGrid :
    (desktop : InformationHomeGridPosition) (compact : Option InformationHomeGridPosition)
    → check_layout desktop compact ≡ none
    → IsOnGrid 12 desktop × IsOnGridIfAny 6 compact
unfolding check_layout
check_layout-IsOnGrid desktop none e = (check_position-IsOnGrid desktop 12 (ground (arith, e)), tt)
check_layout-IsOnGrid desktop (some position) e = (
  check_position-IsOnGrid desktop 12 (ground (arith, e)),
  check_position-IsOnGrid position 6 (ground (arith, e)),
)

check_widget-IsSoundWidget :
    (widget : InformationHomeWidget) → check_widget widget ≡ none → IsSoundWidget widget
unfolding check_widget leb_int
check_widget-IsSoundWidget widget e =
    let (n, is_n, least) =
      IsWhole-at_least widget.limit 1 (ground (arith, e)) (ground (arith, e)) in
    let placed = check_layout-IsOnGrid widget.desktop widget.compact (ground (arith, e)) in
    record {
      known = ground (arith, e);
      limited = (n, is_n, least, ground (arith, e, is_n));
      titled = ground (arith, e);
      few_todos = ground (arith, e);
      few_events = ground (arith, e);
      on_desktop = placed.0;
      on_compact = placed.1;
    }

check_widgets-All :
    (widgets : List InformationHomeWidget)
    → check_widgets widgets ≡ none
    → All IsSoundWidget widgets
unfolding check_widgets
check_widgets-All [] e = tt
check_widgets-All (widget ∷ widgets) e = elim (Option-cases (check_widget widget)) [
  | inl fine ↦
      (check_widget-IsSoundWidget widget fine, check_widgets-All widgets (ground (arith, e, fine)))
  | inr (error, bad) ↦ ground (arith, e, bad)
]

-- An accepted payload has version 1, at most 20 widgets, and no two widgets with one id; each widget has a
-- known type, a whole limit from 1 to 50, a title, to-do items and events within their limits, and on
-- the desktop grid of 12 columns, and on the compact one of 6 if it has a place there, a place of
-- whole numbers that is not empty and does not reach out of the columns.
pub validate_information_home_payload-IsSoundPayload :
    (payload : InformationHomePayload)
    → validate_information_home_payload payload ≡ none
    → IsSoundPayload payload
unfolding validate_information_home_payload
validate_information_home_payload-IsSoundPayload payload e = record {
  versioned = ground (arith, e);
  few_widgets = ground (arith, e);
  distinct =
      AreDistinct-of_length (ids_of_widgets payload.widgets)
        (ground (arith, e) ∙ sym (length-map payload.widgets (λ widget. widget.id)));
  sound = check_widgets-All payload.widgets (ground (arith, e));
}
