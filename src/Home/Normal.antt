-- ===== src/Home/Normal.antt =====
-- What normalizeInformationHomePayload of src/models/home/informationHome.ts makes of any value.
use my_note_book.Base.{
  ℕ, suc, ◌≤◌, nat_eq, leb_int, ◌+ℤ◌, Bool, true, false, not, String, Option, none, some, List, [],
  ◌∷◌, take, length, length-take, if◌then◌else◌, distinct_onto, All, All-take, arith, ◌≡◌, refl,
}
use my_note_book.Home.Values.{Value, Fields, array_of, is_record, field}
use my_note_book.Home.Widgets.{
  InformationHomeWidgetType, InformationHomeWidget, InformationHomePayload, is_widget_type,
  create_widget, create_default_information_home_payload,
}
use my_note_book.Home.Normalize.{
  widget_type_of, own_id, widget_of, normalize_widget, normalize_widgets, is_first_version,
  or_fallback, normalize_information_home_payload,
}
use my_note_book.Home.Validate.{
  check_position, check_layout, check_widget, check_widgets, ids_of_widgets,
  validate_information_home_payload,
}
use my_note_book.Home.Fine.{widget_of-none, IsKnownIfAny, widget_type_of-IsKnownIfAny}

module _ (create_id : ℕ → String) where
  abbrev IsFineIfAny : Option InformationHomeWidget → Type 0
  IsFineIfAny none = Unit
  IsFineIfAny (some widget) = check_widget widget ≡ none

  normalize_widget-IsFineIfAny :
      (value : Value) (index calls : ℕ)
      → IsFineIfAny (normalize_widget create_id value index calls).0
  unfolding normalize_widget
  normalize_widget-IsFineIfAny value index calls = by_record (is_record value)
    where
      with_id :
          InformationHomeWidgetType → Fields → Option String → Option InformationHomeWidget × ℕ
      with_id widget_type fields none =
          (some (widget_of (create_id calls) widget_type fields index), suc calls)
      with_id widget_type fields (some id) = (some (widget_of id widget_type fields index), calls)

      by_id :
          (widget_type : InformationHomeWidgetType) (fields : Fields) (id : Option String)
          → is_widget_type widget_type ≡ true
          → IsFineIfAny (with_id widget_type fields id).0
      by_id widget_type fields none known =
          widget_of-none (create_id calls) widget_type fields index known
      by_id widget_type fields (some id) known = widget_of-none id widget_type fields index known

      with_type : Fields → Option InformationHomeWidgetType → Option InformationHomeWidget × ℕ
      with_type fields none = (none, calls)
      with_type fields (some widget_type) = with_id widget_type fields (own_id (field "id" fields))

      by_type :
          (fields : Fields) (read : Option InformationHomeWidgetType)
          → IsKnownIfAny read
          → IsFineIfAny (with_type fields read).0
      by_type fields none known = tt
      by_type fields (some widget_type) known =
          by_id widget_type fields (own_id (field "id" fields)) known

      with_record : Option Fields → Option InformationHomeWidget × ℕ
      with_record none = (none, calls)
      with_record (some fields) = with_type fields (widget_type_of (field "widgetType" fields))

      by_record : (read : Option Fields) → IsFineIfAny (with_record read).0
      by_record none = tt
      by_record (some fields) =
          by_type fields (widget_type_of (field "widgetType" fields))
            (widget_type_of-IsKnownIfAny (field "widgetType" fields))

  normalize_widgets-All :
      (values : List Value) (index calls : ℕ)
      → All (λ widget. check_widget widget ≡ none) (normalize_widgets create_id values index calls)
  unfolding normalize_widgets
  normalize_widgets-All [] index calls = tt
  normalize_widgets-All (value ∷ values) index calls =
      kept (normalize_widget create_id value index calls).0
        (normalize_widget-IsFineIfAny value index calls)
        (normalize_widgets create_id values (suc index)
          (normalize_widget create_id value index calls).1)
        (normalize_widgets-All values (suc index) (normalize_widget create_id value index calls).1)
    where
      kept :
          (first : Option InformationHomeWidget)
          → IsFineIfAny first
          → (others : List InformationHomeWidget)
          → All (λ widget. check_widget widget ≡ none) others
          → All
              (λ widget. check_widget widget ≡ none)
              (elim first [ none ↦ others | some widget ↦ widget ∷ others ])
      kept none fine others h = h
      kept (some widget) fine others h = (fine, h)

  check_widgets-none :
      (widgets : List InformationHomeWidget)
      → All (λ widget. check_widget widget ≡ none) widgets
      → check_widgets widgets ≡ none
  unfolding check_widgets
  check_widgets-none [] h = refl
  check_widgets-none (widget ∷ widgets) (fine, h) =
      ground (arith, fine, check_widgets-none widgets h)

  -- What is said of the payload that is made.
  abbrev pub IsNormal : InformationHomePayload → Type 0
  IsNormal payload =
      (payload.layout_version ≡ 1)
      × (1 ≤ length payload.widgets)
      × (length payload.widgets ≤ 20)
      × (check_widgets payload.widgets ≡ none)

  default-IsNormal : IsNormal (create_default_information_home_payload create_id)
  unfolding create_default_information_home_payload create_widget check_widgets check_widget
      check_layout check_position leb_int ◌+ℤ◌
  default-IsNormal = (refl, omega arith, omega arith, refl)

  or_fallback-IsNormal :
      (widgets : List InformationHomeWidget)
      → length widgets ≤ 20
      → All (λ widget. check_widget widget ≡ none) widgets
      → IsNormal (or_fallback create_id widgets)
  or_fallback-IsNormal [] few h = default-IsNormal
  or_fallback-IsNormal (widget ∷ widgets) few h =
      (refl, omega arith, few, check_widgets-none (widget ∷ widgets) h)

  normalize-IsNormal :
      (value : Value) → IsNormal (normalize_information_home_payload create_id value)
  unfolding normalize_information_home_payload
  normalize-IsNormal value = by_record (is_record value)
    where
      with_array : Option (List Value) → InformationHomePayload
      with_array none = create_default_information_home_payload create_id
      with_array (some values) =
          or_fallback create_id (take 20 (normalize_widgets create_id values 0 4))

      by_array : (read : Option (List Value)) → IsNormal (with_array read)
      by_array none = default-IsNormal
      by_array (some values) =
          or_fallback-IsNormal (take 20 (normalize_widgets create_id values 0 4))
            (length-take 20 (normalize_widgets create_id values 0 4))
            (All-take (λ widget. check_widget widget ≡ none) 20
              (normalize_widgets create_id values 0 4) (normalize_widgets-All values 0 4))

      by_version :
          (refused : Bool) (read : Option (List Value))
          → IsNormal (
              if refused
              then create_default_information_home_payload create_id
              else with_array read)
      by_version true read = default-IsNormal
      by_version false read = by_array read

      by_record :
          (read : Option Fields)
          → IsNormal (elim read [
            | none ↦ create_default_information_home_payload create_id
            | some fields ↦
                if not (is_first_version (field "layoutVersion" fields))
                then create_default_information_home_payload create_id
                else with_array (array_of (field "widgets" fields))
          ])
      by_record none = default-IsNormal
      by_record (some fields) =
          by_version (not (is_first_version (field "layoutVersion" fields)))
            (array_of (field "widgets" fields))

  IsNormal-valid :
      (payload : InformationHomePayload)
      → IsNormal payload
      → validate_information_home_payload payload ≡ (
          if nat_eq
            (length (distinct_onto [] (ids_of_widgets payload.widgets)))
            (length payload.widgets)
          then none
          else some "首页模块 ID 不能重复。")
  unfolding validate_information_home_payload
  IsNormal-valid payload (first, least, most, fine) = ground (arith, first, most, fine)

  -- Whatever value is normalised, the payload has between 1 and 20 widgets, and the validation accepts it
  -- unless two of its widgets have the same id, of which it then complains.
  pub validate-normalize :
      (value : Value)
      → let payload = normalize_information_home_payload create_id value in
        (1 ≤ length payload.widgets)
        × (length payload.widgets ≤ 20)
        × (validate_information_home_payload payload ≡ (
            if nat_eq
              (length (distinct_onto [] (ids_of_widgets payload.widgets)))
              (length payload.widgets)
            then none
            else some "首页模块 ID 不能重复。"))
  validate-normalize value =
      let (first, least, most, fine) = normalize-IsNormal value in
      (
        least,
        most,
        IsNormal-valid (normalize_information_home_payload create_id value)
            (first, least, most, fine),
      )
