-- ===== src/PolicyJob/Outcomes.antt =====
-- policy-job.ts: the version that a job carries is not looked at.
