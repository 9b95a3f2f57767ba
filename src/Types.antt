-- ===== src/Types.antt =====
-- backend/app/types.py: the enumerations of the domain, the permissions and the permissions of
-- each role.
use dolphin_vc.Base.{Bool, true, false, List, [], ◌∷◌}

pub data UserRole : Type 0 where
  owner partner analyst viewer service : UserRole

pub data OrgPlan : Type 0 where
  demo standard : OrgPlan

pub data SourceTier : Type 0 where
  primary verified_third_party aggregator self_reported inferred : SourceTier

pub data SourceStatus : Type 0 where
  active degraded disabled no_credentials : SourceStatus

pub data SignalKind : Type 0 where
  repo_activity release package_publish paper patent hackathon_result : SignalKind
  accelerator_cohort launch_post forum_post social_post press job_post : SignalKind
  funding_filing company_registry domain_registration tls_certificate : SignalKind
  website_change deck_slide interview app_release dataset_model_publish other : SignalKind

pub data OpportunityStage : Type 0 where
  sourced screening screened diligence decision decided archived : OpportunityStage

pub data OpportunityOrigin : Type 0 where
  inbound outbound manual : OpportunityOrigin

pub data DecisionKind : Type 0 where
  invest pass watchlist needs_human : DecisionKind

pub data AxisKind : Type 0 where
  founder market idea_vs_market : AxisKind

pub data TrendKind : Type 0 where
  improving stable declining insufficient_data : TrendKind

pub data MarketStance : Type 0 where
  bullish neutral bear : MarketStance

pub data ClaimStatus : Type 0 where
  verified corroborated claimed contradicted not_disclosed unverifiable : ClaimStatus

pub data ClaimCategory : Type 0 where
  traction revenue team market product technology funding legal other : ClaimCategory

pub data JobStatus : Type 0 where
  queued running succeeded failed cancelled partial : JobStatus

pub data OutreachStatus : Type 0 where
  suggested approved sent replied applied declined bounced : OutreachStatus

pub data ApplicationStatus : Type 0 where
  received parsing screening needs_info in_diligence decided : ApplicationStatus
  rejected_prescreen error : ApplicationStatus

pub data Permission : Type 0 where
  read screen decide thesis_write org_admin admin : Permission

-- `==` between two permissions
abbrev pub same_permission : Permission → Permission → Bool
same_permission Permission.read Permission.read = true
same_permission Permission.screen Permission.screen = true
same_permission Permission.decide Permission.decide = true
same_permission Permission.thesis_write Permission.thesis_write = true
same_permission Permission.org_admin Permission.org_admin = true
same_permission Permission.admin Permission.admin = true
same_permission _ _ = false

-- `ROLE_PERMISSIONS`
unfoldable pub role_permissions : UserRole → List Permission
role_permissions UserRole.owner =
    Permission.read ∷ Permission.screen ∷ Permission.decide ∷ Permission.thesis_write
    ∷ Permission.org_admin ∷ Permission.admin ∷ []
role_permissions UserRole.partner =
    Permission.read ∷ Permission.screen ∷ Permission.decide ∷ Permission.thesis_write ∷ []
role_permissions UserRole.analyst = Permission.read ∷ Permission.screen ∷ []
role_permissions UserRole.viewer = Permission.read ∷ []
role_permissions UserRole.service = Permission.read ∷ Permission.screen ∷ Permission.admin ∷ []
