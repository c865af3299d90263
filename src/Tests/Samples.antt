-- ===== src/Tests/Samples.antt =====
-- Inputs that the tests share.
use wakapi.Base.{true, false, List, [], ◌∷◌, none, some, Text, codes, ℤ, pos}
use wakapi.Entity.{SummaryType, project, language}
use wakapi.Summary.{Item, Summary}
use wakapi.User.{User}
use wakapi.Heartbeat.{Heartbeat}
use wakapi.Duration.{Duration, GroupFields}
use wakapi.Filters.{Filters, empty_filters}

abbrev pub ada : User
ada = record {
  id = codes "ada";
  email = codes "ada@localhost";
  location = codes "UTC";
  start_of_week = pos 1;
  share_data_max_days = pos 0;
  share_editors = false;
  share_languages = false;
  share_projects = false;
  share_oss = false;
  share_machines = false;
  share_labels = false;
  has_data = true;
  public_leaderboard = false;
  subscribed_until = some (pos 5);
  exclude_unknown_projects = true;
  heartbeats_timeout_sec = pos 600;
}

abbrev pub item : SummaryType → Text → ℤ → Item
item t key total = record { id = 0; summary_id = 0; type = t; key = key; total = total }

abbrev pub summary_of : ℤ → ℤ → List Item → List Item → Summary
summary_of from to projects languages = record {
  id = 0;
  user_id = ada.id;
  from_time = from;
  to_time = to;
  location = 0;
  projects = projects;
  languages = languages;
  editors = [];
  operating_systems = [];
  machines = [];
  labels = [];
  branches = [];
  entities = [];
  categories = [];
  num_heartbeats = pos 3;
}

-- Two projects and a language, then a day later one project.
abbrev pub monday : Summary
monday =
    summary_of (pos 100) (pos 200)
      (item project (codes "wakapi") (pos 60) ∷ item project (codes "antenna") (pos 30) ∷ [])
      (item language (codes "Go") (pos 80) ∷ [])

abbrev pub tuesday : Summary
tuesday = summary_of (pos 300) (pos 400) (item project (codes "wakapi") (pos 15) ∷ []) []

abbrev pub heartbeat : Text → ℤ → Heartbeat
heartbeat name time = record {
  id = 0;
  user = none;
  user_id = ada.id;
  entity = codes "src/main.go";
  type = codes "file";
  category = codes "coding";
  project = name;
  branch = codes "main";
  language = codes "Go";
  is_write = false;
  editor = codes "vim";
  ai_model = [];
  operating_system = codes "Linux";
  machine = codes "engine";
  user_agent = [];
  time = time;
  hash = [];
}

-- A hash that tells projects apart.
abbrev pub project_hash : GroupFields → Text
project_hash fields = fields.project

abbrev pub duration : Text → ℤ → ℤ → ℤ → Duration
duration name time length heartbeats = record {
  id = 0;
  user_id = ada.id;
  time = time;
  duration = length;
  project = name;
  language = codes "Go";
  editor = codes "vim";
  operating_system = codes "Linux";
  machine = codes "engine";
  category = codes "coding";
  ai_model = [];
  branch = codes "main";
  entity = codes "src/main.go";
  extension = codes "go";
  num_heartbeats = heartbeats;
  group_hash = name;
  timeout = pos 600000000000;
  exclude_entity = true;
}

-- Filters on one project.
abbrev pub only_wakapi : Filters
only_wakapi = record empty_filters { project = some (codes "wakapi" ∷ []) }
