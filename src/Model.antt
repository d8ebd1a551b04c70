-- ===== src/Model.antt =====
-- The records of common/model.py. A timestamp is a number of ticks of the wall clock.
use topicstreams.Base.{ℕ, String, Bool, Option}

pub record Topic : Type 0 where
  pub name : String
  pub created_at : ℕ
  pub is_active : Bool

pub record NewsEntry : Type 0 where
  pub topic : String
  pub title : String
  pub url : String
  pub domain : String
  pub source : Option String
  pub snippet : Option String
  pub engine : Option String

pub data WebResultKind : Type 0 where
  answer knowledge_panel widget organic top_story discussion video : WebResultKind

pub record WebResult : Type 0 where
  pub kind : WebResultKind
  pub title : String
  pub url : Option String
  pub domain : Option String
  pub source : Option String
  pub snippet : Option String
  pub engine : Option String

-- `create_new` stamps every log, so `scraped_at` is there.
pub record ScraperLog : Type 0 where
  pub topic : String
  pub scraped_at : ℕ
  pub success : Bool
  pub http_status_code : Option ℕ
  pub error_message : Option String
  pub entry_count : ℕ
  pub engine : String
  pub duration_ms : Option ℕ
