-- ===== src/Config/AntiDetection.antt =====
-- The properties of `AntiDetectionConfig` in common/config.py. `env` is the value of SCRAPER_PROXY, the
-- empty text if it is not set.
use topicstreams.Text.{strip}
use topicstreams.Config.{
  Yaml, flag, number, text, sequence, mapping, no_items, item, no_entries, entry, Setting, read,
  texts,
}
use topicstreams.Base.{String, true, false, List, [], ◌∷◌, str_eq, if◌then◌else◌}

abbrev pub playwright_stealth_enabled : Setting
playwright_stealth_enabled = record {
  path = "anti_detection" ∷ "playwright_stealth" ∷ "enabled" ∷ [];
  default = flag true;
}

abbrev pub random_delays_enabled : Setting
random_delays_enabled = record {
  path = "anti_detection" ∷ "random_delays" ∷ "enabled" ∷ [];
  default = flag true;
}

abbrev pub captcha_detection_enabled : Setting
captcha_detection_enabled = record {
  path = "anti_detection" ∷ "captcha_detection" ∷ "enabled" ∷ [];
  default = flag true;
}

abbrev pub http_error_handling_enabled : Setting
http_error_handling_enabled = record {
  path = "anti_detection" ∷ "http_error_handling" ∷ "enabled" ∷ [];
  default = flag true;
}

abbrev pub browser_args : Setting
browser_args = record {
  path = "anti_detection" ∷ "browser_args" ∷ "args" ∷ [];
  default = texts (
      "--no-sandbox" ∷ "--disable-setuid-sandbox" ∷ "--disable-blink-features=AutomationControlled"
      ∷ []);
}

abbrev pub nav_timeout_ms : Setting
nav_timeout_ms = record {
  path = "anti_detection" ∷ "page_interaction" ∷ "nav_timeout_ms" ∷ [];
  default = number "30000";
}

abbrev pub selector_timeout_ms : Setting
selector_timeout_ms = record {
  path = "anti_detection" ∷ "page_interaction" ∷ "selector_timeout_ms" ∷ [];
  default = number "5000";
}

abbrev pub page_settle_min_ms : Setting
page_settle_min_ms = record {
  path = "anti_detection" ∷ "page_interaction" ∷ "settle_min_ms" ∷ [];
  default = number "1500";
}

abbrev pub page_settle_max_ms : Setting
page_settle_max_ms = record {
  path = "anti_detection" ∷ "page_interaction" ∷ "settle_max_ms" ∷ [];
  default = number "3000";
}

abbrev pub random_delay_min : Setting
random_delay_min = record {
  path = "anti_detection" ∷ "random_delays" ∷ "min_seconds" ∷ [];
  default = number "2";
}

abbrev pub random_delay_max : Setting
random_delay_max = record {
  path = "anti_detection" ∷ "random_delays" ∷ "max_seconds" ∷ [];
  default = number "5";
}

abbrev pub viewport_width : Setting
viewport_width = record {
  path = "anti_detection" ∷ "browser_fingerprint" ∷ "viewport_width" ∷ [];
  default = number "1920";
}

abbrev pub viewport_height : Setting
viewport_height = record {
  path = "anti_detection" ∷ "browser_fingerprint" ∷ "viewport_height" ∷ [];
  default = number "1080";
}

abbrev pub locale : Setting
locale = record {
  path = "anti_detection" ∷ "browser_fingerprint" ∷ "locale" ∷ [];
  default = text "en-US";
}

abbrev pub timezone_id : Setting
timezone_id = record {
  path = "anti_detection" ∷ "browser_fingerprint" ∷ "timezone_id" ∷ [];
  default = text "America/Los_Angeles";
}

abbrev pub geolocation_latitude : Setting
geolocation_latitude = record {
  path = "anti_detection" ∷ "browser_fingerprint" ∷ "geolocation_latitude" ∷ [];
  default = number "37.3273";
}

abbrev pub geolocation_longitude : Setting
geolocation_longitude = record {
  path = "anti_detection" ∷ "browser_fingerprint" ∷ "geolocation_longitude" ∷ [];
  default = number "-121.954";
}

abbrev pub color_scheme : Setting
color_scheme = record {
  path = "anti_detection" ∷ "browser_fingerprint" ∷ "color_scheme" ∷ [];
  default = text "light";
}

abbrev pub permissions : Setting
permissions = record {
  path = "anti_detection" ∷ "browser_fingerprint" ∷ "permissions" ∷ [];
  default = texts ("geolocation" ∷ []);
}

abbrev pub captcha_keywords : Setting
captcha_keywords = record {
  path = "anti_detection" ∷ "captcha_detection" ∷ "keywords" ∷ [];
  default = texts ("captcha" ∷ "unusual traffic" ∷ []);
}

abbrev pub monitored_http_codes : Setting
monitored_http_codes = record {
  path = "anti_detection" ∷ "http_error_handling" ∷ "monitored_codes" ∷ [];
  default = sequence (item (number "429") (item (number "403") (item (number "503") no_items)));
}

abbrev pub http_headers : Setting
http_headers = record {
  path = "anti_detection" ∷ "http_headers" ∷ "headers" ∷ [];
  default = mapping (
      entry "Accept"
        (text "text/html,application/xhtml+xml,application/xml;q=0.9,image/webp,*/*;q=0.8")
        (entry "Accept-Language" (text "en-US,en;q=0.9") no_entries));
}

abbrev pub proxy_enabled_setting : Setting
proxy_enabled_setting = record {
  path = "anti_detection" ∷ "proxy" ∷ "enabled" ∷ [];
  default = flag false;
}

abbrev pub proxy_servers_setting : Setting
proxy_servers_setting = record {
  path = "anti_detection" ∷ "proxy" ∷ "proxies" ∷ [];
  default = sequence no_items;
}

abbrev pub anti_detection_settings : List Setting
anti_detection_settings =
    playwright_stealth_enabled ∷ random_delays_enabled ∷ captcha_detection_enabled
    ∷ http_error_handling_enabled ∷ browser_args ∷ nav_timeout_ms ∷ selector_timeout_ms
    ∷ page_settle_min_ms ∷ page_settle_max_ms ∷ random_delay_min ∷ random_delay_max ∷ viewport_width
    ∷ viewport_height ∷ locale ∷ timezone_id ∷ geolocation_latitude ∷ geolocation_longitude
    ∷ color_scheme ∷ permissions ∷ captcha_keywords ∷ monitored_http_codes ∷ http_headers
    ∷ proxy_enabled_setting ∷ proxy_servers_setting ∷ []

unfoldable pub proxy_enabled : String → Yaml → Yaml
proxy_enabled env config =
    if str_eq (strip env) "" then read proxy_enabled_setting config else flag true

unfoldable pub proxy_servers : String → Yaml → Yaml
proxy_servers env config =
    if str_eq (strip env) "" then read proxy_servers_setting config else texts (strip env ∷ [])
