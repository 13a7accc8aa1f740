-- ===== src/Acme.antt =====
-- src/acme: the account, installing a certificate on disk, and its renewal.
pub mod Install
pub mod Due
pub mod Renewal
pub mod InstallLaws
pub mod RenewalLaws
pub mod Task
pub mod TaskLaws
pub mod Account
pub mod PathLaws
pub mod AccountLaws
