-- ===== src/Tenants/Table.antt =====
-- `NIGERIAN_UNIVERSITIES` of frontend/src/utils/tenantAbbreviations.ts, in the order of the source.
-- All keys are different.
mod Universities
mod Colleges
mod Additional
mod Specialized
mod Latest
use wazire.Base.{◌++◌}
use wazire.Base.Text.{Text}
use wazire.Base.Dict.{Dict}
use wazire.Tenants.Table.Universities.{universities}
use wazire.Tenants.Table.Colleges.{colleges}
use wazire.Tenants.Table.Additional.{additional}
use wazire.Tenants.Table.Specialized.{specialized}
use wazire.Tenants.Table.Latest.{latest}

unfoldable pub nigerian_universities : Dict Text
unfolding universities colleges additional specialized latest
nigerian_universities = universities ++ (colleges ++ (additional ++ (specialized ++ latest)))
