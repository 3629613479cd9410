-- ===== src/Home/Widgets.antt =====
-- The types of src/models/home/informationHome.ts and its default payload. `create_id` gives the id that
-- each of its calls returns, by the number of the call.
use my_note_book.Base.{ℕ, pos, Bool, true, false, String, Option, none, some, List, [], ◌∷◌}
use my_note_book.Home.Values.{Number, whole}

pub data InformationHomeWidgetType : Type 0 where
  email_actions rss_news agent_summary todo_list calendar local_environment :
      InformationHomeWidgetType
  other_widget : String → InformationHomeWidgetType

pub record InformationHomeTodoItem : Type 0 where
  pub id : String
  pub title : String
  pub completed : Bool
  pub created_at : Number

pub record InformationHomeCalendarEvent : Type 0 where
  pub id : String
  pub title : String
  pub date : String

pub record InformationHomeGridPosition : Type 0 where
  pub x : Number
  pub y : Number
  pub w : Number
  pub h : Number
  pub min_w : Option Number
  pub min_h : Option Number

pub record WidgetSettings : Type 0 where
  pub title : Option String
  pub todos : Option (List InformationHomeTodoItem)
  pub events : Option (List InformationHomeCalendarEvent)

pub record InformationHomeWidget : Type 0 where
  pub id : String
  pub widget_type : InformationHomeWidgetType
  pub widget_version : ℕ
  pub limit : Number
  pub settings : WidgetSettings
  pub desktop : InformationHomeGridPosition
  pub compact : Option InformationHomeGridPosition

pub record InformationHomePayload : Type 0 where
  pub layout_version : ℕ
  pub widgets : List InformationHomeWidget

pub record InformationHome : Type 0 where
  pub payload : InformationHomePayload
  pub schema_version : ℕ
  pub version : ℕ
  pub auto_summary_enabled : Bool
  pub summary_interval_minutes : ℕ
  pub created_at : ℕ
  pub updated_at : ℕ

-- `INFORMATION_HOME_WIDGET_TYPES.has`
abbrev pub is_widget_type : InformationHomeWidgetType → Bool
is_widget_type (other_widget name) = false
is_widget_type _ = true

pub record WidgetSize : Type 0 where
  pub w : ℕ
  pub h : ℕ
  pub min_w : ℕ
  pub min_h : ℕ

abbrev size_of : ℕ → ℕ → ℕ → ℕ → WidgetSize
size_of w h min_w min_h = record { w = w; h = h; min_w = min_w; min_h = min_h }

unfoldable pub default_widget_size : InformationHomeWidgetType → WidgetSize
default_widget_size email_actions = size_of 5 5 4 3
default_widget_size rss_news = size_of 7 5 4 3
default_widget_size agent_summary = size_of 12 4 6 3
default_widget_size todo_list = size_of 5 5 4 3
default_widget_size local_environment = size_of 12 4 6 3
default_widget_size _ = size_of 7 6 5 5

-- `widgetType === 'agent-summary' ? 1 : 8`
abbrev pub default_limit : InformationHomeWidgetType → ℕ
default_limit agent_summary = 1
default_limit _ = 8

abbrev pub position_at : ℕ → ℕ → WidgetSize → InformationHomeGridPosition
position_at x y size = record {
  x = whole (pos x);
  y = whole (pos y);
  w = whole (pos (size.w));
  h = whole (pos (size.h));
  min_w = some (whole (pos (size.min_w)));
  min_h = some (whole (pos (size.min_h)));
}

unfoldable pub create_widget :
    String → InformationHomeWidgetType → InformationHomeGridPosition → InformationHomeWidget
create_widget id widget_type desktop = record {
  id = id;
  widget_type = widget_type;
  widget_version = 1;
  limit = whole (pos (default_limit widget_type));
  settings = record { title = none; todos = none; events = none };
  desktop = desktop;
  compact = none;
}

module _ (create_id : ℕ → String) where
  -- Its four calls of `createId` are the first.
  unfoldable pub create_default_information_home_payload : InformationHomePayload
  create_default_information_home_payload = record {
    layout_version = 1;
    widgets =
        create_widget (create_id 0) email_actions (position_at 0 0 (size_of 5 5 4 3))
        ∷ create_widget (create_id 1) rss_news (position_at 5 0 (size_of 7 5 4 3))
        ∷ create_widget (create_id 2) agent_summary (position_at 0 5 (size_of 12 4 6 3))
        ∷ create_widget (create_id 3) local_environment (position_at 0 9 (size_of 12 4 6 3))
        ∷ [];
  }

  unfoldable pub create_information_home : ℕ → InformationHome
  create_information_home now = record {
    payload = create_default_information_home_payload;
    schema_version = 1;
    version = 1;
    auto_summary_enabled = false;
    summary_interval_minutes = 360;
    created_at = now;
    updated_at = now;
  }
