-- ===== src/Policy.antt =====
-- redfish_ctl/actions/action_policy.py: how risky each Redfish action is.
pub mod Laws
mod Tests
use redfish_ctl.Common.{String, Option, none, some, List, [], ◌∷◌, if◌then◌else◌}
use redfish_ctl.Common.Dict.{Dict, lookup}
use redfish_ctl.Common.Text.{is_empty}

pub data Destructiveness : Type 0 where
  read_only reversible destructive irreversible : Destructiveness

-- Destructiveness.value
unfoldable pub value : Destructiveness → String
value read_only = "read_only"
value reversible = "reversible"
value destructive = "destructive"
value irreversible = "irreversible"

-- A Python dict display keeps the last value of a key; no key stands twice here, so the first is the last.
abbrev pub action_policy : Dict Destructiveness
action_policy =
    ("#ComponentIntegrity.SPDMGetSignedMeasurements", read_only)
    ∷ ("#ComponentIntegrity.TPMGetSignedMeasurements", read_only)
    ∷ ("#DellLCService.SupportAssistGetAutoCollectSchedule", read_only)
    ∷ ("#DellLCService.SupportAssistGetEULAStatus", read_only)
    ∷ ("#DelliDRACCardService.ExportCertificate", read_only)
    ∷ ("#DelliDRACCardService.ExportSSLCertificate", read_only)
    ∷ ("#DelliDRACCardService.FactoryIdentityExportCertificate", read_only)
    ∷ ("#DelliDRACCardService.VerifyHWProofOfPossession", read_only)
    ∷ ("#DellRaidService.CheckVDValues", read_only)
    ∷ ("#EventService.SubmitTestEvent", reversible)
    ∷ ("#DelliDRACCardService.TestSEKMServerConnection", reversible)
    ∷ ("#HpeDirectoryTest.StartTest", reversible)
    ∷ ("#HpeDirectoryTest.StopTest", reversible)
    ∷ ("#HpeiLOSnmpService.SendSNMPTestAlert", reversible)
    ∷ ("#HpeiLOManagerNetworkService.SendTestAlertMail", reversible)
    ∷ ("#HpeiLOManagerNetworkService.SendTestSyslog", reversible)
    ∷ ("#DellLCService.TestNetworkShare", reversible)
    ∷ ("#DelliDRACCardService.SendTestEmailAlert", reversible)
    ∷ ("#DelliDRACCardService.SendTestSNMPTrap", reversible)
    ∷ ("#DelliDRACCardService.TestRsyslogServerConnection", reversible)
    ∷ ("#TelemetryService.SubmitTestMetricReport", reversible)
    ∷ ("#VirtualMedia.InsertMedia", reversible)
    ∷ ("#VirtualMedia.EjectMedia", reversible)
    ∷ ("#CertificateService.GenerateCSR", reversible)
    ∷ ("#DelliDRACCardService.FactoryIdentityCertificateGenerateCSR", reversible)
    ∷ ("#DelliDRACCardService.GenerateSEKMCSR", reversible)
    ∷ ("#LogService.CollectDiagnosticData", reversible)
    ∷ ("#NvidiaPowerSmoothing.ActivatePresetProfile", reversible)
    ∷ ("#NvidiaPowerSmoothing.ApplyAdminOverrides", reversible)
    ∷ ("#NvidiaWorkloadPower.EnableProfiles", reversible)
    ∷ ("#NvidiaWorkloadPower.DisableProfiles", reversible)
    ∷ ("#NvidiaDebugToken.GenerateToken", reversible)
    ∷ ("#NvidiaDebugToken.DisableToken", reversible)
    ∷ ("#DellSwitchConnectionService.ServerPortConnectionRefresh", reversible)
    ∷ ("#DellRaidService.BlinkTarget", reversible)
    ∷ ("#DellRaidService.UnBlinkTarget", reversible)
    ∷ ("#DellLCService.UpdateOSAppHealthData", reversible)
    ∷ ("#DellRaidService.StartPatrolRead", reversible)
    ∷ ("#DellRaidService.StopPatrolRead", reversible)
    ∷ ("#DellLCService.SupportAssistClearAutoCollectSchedule", reversible)
    ∷ ("#DellLCService.SupportAssistSetAutoCollectSchedule", reversible)
    ∷ ("#ComputerSystem.Reset", destructive)
    ∷ ("#Manager.Reset", destructive)
    ∷ ("#Chassis.Reset", destructive)
    ∷ ("#NetworkAdapter.Reset", destructive)
    ∷ ("#Control.ResetToDefaults", destructive)
    ∷ ("#Bios.ResetBios", destructive)
    ∷ ("#Bios.ChangePassword", destructive)
    ∷ ("#DellBIOSService.DeviceRecovery", destructive)
    ∷ ("#DellPersistentStorageService.VFlashStateChange", destructive)
    ∷ ("#DellLCService.ClearProvisioningServer", destructive)
    ∷ ("#LicenseService.Install", destructive)
    ∷ ("#HpeServerChassis.DisableMCTPOnServer", destructive)
    ∷ ("#HpeiLOAccountService.ImportKerberosKeytab", destructive)
    ∷ ("#DellLicenseManagementService.DeleteLicense", destructive)
    ∷ ("#DellLicenseManagementService.ExportLicense", destructive)
    ∷ ("#DellLicenseManagementService.ExportLicenseByDevice", destructive)
    ∷ ("#DellLicenseManagementService.ExportLicenseByDeviceToNetworkShare", destructive)
    ∷ ("#DellLicenseManagementService.ExportLicenseToNetworkShare", destructive)
    ∷ ("#DellLicenseManagementService.ImportLicense", destructive)
    ∷ ("#DellLicenseManagementService.ImportLicenseFromNetworkShare", destructive)
    ∷ ("#DellRaidService.AssignSpare", destructive)
    ∷ ("#DellRaidService.UnassignSpare", destructive)
    ∷ ("#DellLCService.ExportCompleteLCLog", destructive)
    ∷ ("#DellLCService.ExportFactoryConfiguration", destructive)
    ∷ ("#DellLCService.ExportHWInventory", destructive)
    ∷ ("#DellLCService.ExportLCLog", destructive)
    ∷ ("#DellLCService.ExportSVGFile", destructive)
    ∷ ("#DellLCService.ExportServerScreenShot", destructive)
    ∷ ("#DellLCService.ExportTechSupportReport", destructive)
    ∷ ("#DellLCService.ExportVideoLog", destructive)
    ∷ ("#DellLCService.ExportePSADiagnosticsResult", destructive)
    ∷ ("#DellSoftwareInstallationService.ClearUpdateSchedule", destructive)
    ∷ ("#DellSoftwareInstallationService.SetUpdateSchedule", destructive)
    ∷ ("#DellLCService.SupportAssistExportLastCollection", destructive)
    ∷ ("#DellPersistentStorageService.AttachPartition", destructive)
    ∷ ("#DellPersistentStorageService.CreatePartition", destructive)
    ∷ ("#DellPersistentStorageService.CreatePartitionUsingImage", destructive)
    ∷ ("#DellPersistentStorageService.DetachPartition", destructive)
    ∷ ("#DellPersistentStorageService.ExportDataFromPartition", destructive)
    ∷ ("#DellPersistentStorageService.ModifyPartition", destructive)
    ∷ ("#DellRaidService.RenameVD", destructive)
    ∷ ("#LogService.ClearLog", destructive)
    ∷ ("#TelemetryService.ClearMetricReports", destructive)
    ∷ ("#TelemetryService.ResetMetricReportDefinitionsToDefaults", destructive)
    ∷ ("#DellJobService.SetupJobQueue", destructive)
    ∷ ("#DellRaidService.SetAssetName", destructive)
    ∷ ("#DellRaidService.SetBootVD", destructive)
    ∷ ("#DellSystemManagementService.ShowErrorsOnLCD", destructive)
    ∷ ("#DellLCService.ReInitiateAutoDiscovery", destructive)
    ∷ ("#DellLCService.ReInitiateDHS", destructive)
    ∷ ("#Volume.CheckConsistency", destructive)
    ∷ ("#DellRaidService.CancelBackgroundInitialization", destructive)
    ∷ ("#DellRaidService.CancelCheckConsistency", destructive)
    ∷ ("#DellRaidService.CancelRebuildPhysicalDisk", destructive)
    ∷ ("#DellLCService.ExposeiSMInstallerToHostOS", destructive)
    ∷ ("#DellRaidService.ClearControllerPreservedCache", irreversible)
    ∷ ("#DellRaidService.ClearForeignConfig", irreversible)
    ∷ ("#DellRaidService.ChangePDState", destructive)
    ∷ ("#DellRaidService.PrepareToRemove", destructive)
    ∷ ("#DellRaidService.RebuildPhysicalDisk", destructive)
    ∷ ("#CertificateService.ReplaceCertificate", destructive)
    ∷ ("#SecureBoot.ResetKeys", destructive)
    ∷ ("#SecureBootDatabase.ResetKeys", destructive)
    ∷ ("#NvidiaDebugToken.InstallToken", destructive)
    ∷ ("#UpdateService.SimpleUpdate", destructive)
    ∷ ("#UpdateService.StartUpdate", destructive)
    ∷ ("#SmcNodeManager.ClearAllPolicies", destructive)
    ∷ ("#DellMetricService.ControlMetrics", destructive)
    ∷ ("#DellMetricService.ExportThermalHistory", destructive)
    ∷ ("#DelliDRACCardService.DisableiLKM", destructive)
    ∷ ("#DelliDRACCardService.DisableSEKM", destructive)
    ∷ ("#DelliDRACCardService.EnableiLKM", destructive)
    ∷ ("#DelliDRACCardService.EnableSEKM", destructive)
    ∷ ("#DelliDRACCardService.Rekey", destructive)
    ∷ ("#DelliDRACCardService.iLKMToSEKMTransition", destructive)
    ∷ ("#DelliDRACCardService.DeleteGroup", destructive)
    ∷ ("#DelliDRACCardService.JoinGroup", destructive)
    ∷ ("#DelliDRACCardService.RemoveSelf", destructive)
    ∷ ("#Drive.SecureErase", irreversible)
    ∷ ("#DellRaidService.ImportForeignConfig", irreversible)
    ∷ ("#DellRaidService.UnLockSecureForeignConfig", irreversible)
    ∷ ("#Manager.ResetToDefaults", irreversible)
    ∷ ("#HpeServerChassis.FactoryResetMCTP", irreversible)
    ∷ ("#NvidiaRoTProtectedComponent.RevokeKeys", irreversible)
    ∷ ("#NvidiaRoTProtectedComponent.UpdateMinimumSecurityVersion", irreversible)
    ∷ ("#DellPersistentStorageService.DeletePartition", irreversible)
    ∷ ("#DellPersistentStorageService.FormatPartition", irreversible)
    ∷ ("#DellPersistentStorageService.InitializeMedia", irreversible)
    ∷ []

abbrev pub default_level : Destructiveness
default_level = destructive

abbrev or_default : Option Destructiveness → Destructiveness
or_default none = default_level
or_default (some level) = level

unfoldable pub classify : String → Destructiveness
unfolding lookup
classify full_action_type =
    if is_empty full_action_type
    then default_level
    else or_default (lookup full_action_type action_policy)
