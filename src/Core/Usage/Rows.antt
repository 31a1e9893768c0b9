-- ===== src/Core/Usage/Rows.antt =====
-- The flat views of internal/core/usage.go: a row per person and provider, and a row per service.
use nuno.Prelude.{
  ◌-◌, Bool, true, false, not, ◌&&◌, ◌||◌, none, some, List, [], ◌∷◌, ◌++◌, if◌then◌else◌, leb,
  ℕ_eq, map,
}
use nuno.Prelude.Int.{ℤ, pos, leb_ℤ, add64}
use nuno.Prelude.Text.{Text, text_lt, Text_eq}
use nuno.Prelude.Dict.{Dict, lookup, write, keys}
use nuno.Prelude.Sort.{sort_by}
use nuno.Core.Usage.{
  UsageStatus, status_ok, Summary, shows_unknown, shows_unlimited, shows_used, shows_share,
  UsageProvider, UsageUser, is_trusted, or_zero, is_none,
}

-- The status of a row for people.
pub data RowStatus : Type 0 where
  row_partial : RowStatus
  row_status : UsageStatus → RowStatus

pub record UsageRow : Type 0 where
  pub name : Text
  pub summary : Summary
  pub status : RowStatus

-- `TitleCase`
unfoldable pub title_case : Text → Text
title_case [] = []
title_case (c ∷ rest) = (if leb 97 c && leb c 122 then c - 32 else c) ∷ rest

provider_rows : Text → List UsageProvider → List UsageRow
unfolding title_case
provider_rows user [] = []
provider_rows user (p ∷ rest) =
    record {
      name = user ++ (32 ∷ 194 ∷ 183 ∷ 32 ∷ title_case p.type_name);
      summary = p.summary;
      status = row_status p.status;
    }
    ∷ provider_rows user rest

-- `BuildUsageDetail`
unfoldable pub build_usage_detail : List UsageUser → List UsageRow
unfolding provider_rows
build_usage_detail [] = []
build_usage_detail (u ∷ rest) =
    record {
      name = u.user;
      summary = u.summary;
      status = if u.complete then row_status status_ok else row_partial;
    }
    ∷ (provider_rows u.user u.providers ++ build_usage_detail rest)

-- What is added up for a type of provider.
pub record ServiceTotal : Type 0 where
  pub used : ℤ
  pub quota : ℤ
  pub unlimited : Bool
  pub known : Bool
  pub partial : Bool

abbrev no_total : ServiceTotal
no_total = record { used = pos 0; quota = pos 0; unlimited = false; known = false; partial = false }

add_service : UsageProvider → ServiceTotal → ServiceTotal
add_service p t = if not (is_trusted p.status) then record t { partial = true } else record t {
  known = true;
  used = add64 t.used (or_zero p.used_bytes);
  unlimited = t.unlimited || is_none p.quota_bytes;
  quota = add64 t.quota (or_zero p.quota_bytes);
}

total_of : Text → Dict Text ServiceTotal → ServiceTotal
total_of type_name m = elim (lookup type_name m) [ none ↦ no_total | some t ↦ t ]

add_services : List UsageProvider → Dict Text ServiceTotal → Dict Text ServiceTotal
unfolding add_service total_of
add_services [] m = m
add_services (p ∷ rest) m =
    add_services rest (write p.type_name (add_service p (total_of p.type_name m)) m)

add_users : List UsageUser → Dict Text ServiceTotal → Dict Text ServiceTotal
unfolding add_services
add_users [] m = m
add_users (u ∷ rest) m = add_users rest (add_services u.providers m)

-- `summarizeTotal`
unfoldable pub summarize_total : ServiceTotal → Summary
summarize_total t =
    if not t.known
    then shows_unknown
    else if t.unlimited
    then shows_unlimited t.used
    else if leb_ℤ t.quota (pos 0)
    then shows_used t.used
    else shows_share t.used t.quota

service_row : Dict Text ServiceTotal → Text → UsageRow
unfolding summarize_total
service_row m type_name =
    let t = total_of type_name m in
    record {
      name = title_case type_name;
      summary = summarize_total t;
      status = if t.partial then row_partial else row_status status_ok;
    }

-- `BuildUsageByService`
unfoldable pub build_usage_by_service : List UsageUser → List UsageRow
unfolding add_users service_row
build_usage_by_service users =
    let m = add_users users [] in map (service_row m) (sort_by text_lt (keys m))
