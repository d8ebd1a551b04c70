-- ===== src/Config/HumanSimulation.antt =====
-- The properties of `AntiDetectionConfig` in common/config.py for the simulated reading of a page, each
-- under `_human_sim`.
use topicstreams.Config.{number, Setting}
use topicstreams.Base.{List, [], ◌∷◌}

abbrev pub scroll_steps_min : Setting
scroll_steps_min = record {
  path = "anti_detection" ∷ "page_interaction" ∷ "human_simulation" ∷ "scroll_steps_min" ∷ [];
  default = number "2";
}

abbrev pub scroll_steps_max : Setting
scroll_steps_max = record {
  path = "anti_detection" ∷ "page_interaction" ∷ "human_simulation" ∷ "scroll_steps_max" ∷ [];
  default = number "4";
}

abbrev pub scroll_distance_min : Setting
scroll_distance_min = record {
  path = "anti_detection" ∷ "page_interaction" ∷ "human_simulation" ∷ "scroll_distance_min" ∷ [];
  default = number "80";
}

abbrev pub scroll_distance_max : Setting
scroll_distance_max = record {
  path = "anti_detection" ∷ "page_interaction" ∷ "human_simulation" ∷ "scroll_distance_max" ∷ [];
  default = number "250";
}

abbrev pub scroll_wait_min : Setting
scroll_wait_min = record {
  path = "anti_detection" ∷ "page_interaction" ∷ "human_simulation" ∷ "scroll_wait_min" ∷ [];
  default = number "300";
}

abbrev pub scroll_wait_max : Setting
scroll_wait_max = record {
  path = "anti_detection" ∷ "page_interaction" ∷ "human_simulation" ∷ "scroll_wait_max" ∷ [];
  default = number "800";
}

abbrev pub mouse_x_min : Setting
mouse_x_min = record {
  path = "anti_detection" ∷ "page_interaction" ∷ "human_simulation" ∷ "mouse_x_min" ∷ [];
  default = number "200";
}

abbrev pub mouse_x_max : Setting
mouse_x_max = record {
  path = "anti_detection" ∷ "page_interaction" ∷ "human_simulation" ∷ "mouse_x_max" ∷ [];
  default = number "1700";
}

abbrev pub mouse_y_min : Setting
mouse_y_min = record {
  path = "anti_detection" ∷ "page_interaction" ∷ "human_simulation" ∷ "mouse_y_min" ∷ [];
  default = number "200";
}

abbrev pub mouse_y_max : Setting
mouse_y_max = record {
  path = "anti_detection" ∷ "page_interaction" ∷ "human_simulation" ∷ "mouse_y_max" ∷ [];
  default = number "800";
}

abbrev pub mouse_steps_min : Setting
mouse_steps_min = record {
  path = "anti_detection" ∷ "page_interaction" ∷ "human_simulation" ∷ "mouse_steps_min" ∷ [];
  default = number "5";
}

abbrev pub mouse_steps_max : Setting
mouse_steps_max = record {
  path = "anti_detection" ∷ "page_interaction" ∷ "human_simulation" ∷ "mouse_steps_max" ∷ [];
  default = number "15";
}

abbrev pub scroll_back_chance : Setting
scroll_back_chance = record {
  path = "anti_detection" ∷ "page_interaction" ∷ "human_simulation" ∷ "scroll_back_chance" ∷ [];
  default = number "0.5";
}

abbrev pub scroll_back_distance_min : Setting
scroll_back_distance_min = record {
  path =
      "anti_detection" ∷ "page_interaction" ∷ "human_simulation" ∷ "scroll_back_distance_min" ∷ [];
  default = number "30";
}

abbrev pub scroll_back_distance_max : Setting
scroll_back_distance_max = record {
  path =
      "anti_detection" ∷ "page_interaction" ∷ "human_simulation" ∷ "scroll_back_distance_max" ∷ [];
  default = number "100";
}

abbrev pub scroll_back_wait_min : Setting
scroll_back_wait_min = record {
  path = "anti_detection" ∷ "page_interaction" ∷ "human_simulation" ∷ "scroll_back_wait_min" ∷ [];
  default = number "200";
}

abbrev pub scroll_back_wait_max : Setting
scroll_back_wait_max = record {
  path = "anti_detection" ∷ "page_interaction" ∷ "human_simulation" ∷ "scroll_back_wait_max" ∷ [];
  default = number "500";
}

abbrev pub human_simulation_settings : List Setting
human_simulation_settings =
    scroll_steps_min ∷ scroll_steps_max ∷ scroll_distance_min ∷ scroll_distance_max
    ∷ scroll_wait_min ∷ scroll_wait_max ∷ mouse_x_min ∷ mouse_x_max ∷ mouse_y_min ∷ mouse_y_max
    ∷ mouse_steps_min ∷ mouse_steps_max ∷ scroll_back_chance ∷ scroll_back_distance_min
    ∷ scroll_back_distance_max ∷ scroll_back_wait_min ∷ scroll_back_wait_max ∷ []
