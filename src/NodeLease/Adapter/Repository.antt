-- ===== src/NodeLease/Adapter/Repository.antt =====
-- `CloudflareNodeLeaseRepository` of packages/service-cloudflare/src/node-lease.ts as the
-- repositories of packages/service/src/node-lease.ts.
use unicas.Base.{ℕ}
use unicas.Store.{Store}
use unicas.NodeLease.Types.{
  NodeLeaseRepository, CanonicalNodeLeaseRepository, CanonicalDirectUploadRepository,
  LeaseDrivenNodeUploadRepository,
}
use unicas.NodeLease.Adapter.{
  Bucket, read_node_lease, read_canonical_object, read_canonical_prefix, is_node_ready,
  renew_node_lease, read_canonical_node_lease, read_node_refs, reserve_canonical_upload,
  put_canonical_object, read_canonical_upload_session, reserve_canonical_upload_session,
  delete_canonical_upload_session, read_canonical_bytes, put_verified_canonical_bytes,
}
use unicas.NodeLease.Adapter.Commit.{commit_adopted_canonical_node, commit_uploaded_canonical_node}
use unicas.NodeLease.Adapter.Uploads.{
  count_lease_driven_uploads, read_lease_driven_upload, replace_lease_driven_upload,
  stage_lease_driven_upload_validation, read_temporary_upload_object, read_temporary_upload_bytes,
  delete_temporary_upload_object, delete_lease_driven_upload,
}

module _ (bucket : Bucket) (committed_at : ℕ) where
  abbrev pub lease_repository : NodeLeaseRepository Store
  lease_repository = record {
    read_node_lease = read_node_lease;
    read_canonical_object = read_canonical_object;
    read_canonical_prefix = read_canonical_prefix bucket;
    is_node_ready = is_node_ready;
    renew_node_lease = renew_node_lease;
    commit_adopted_canonical_node = commit_adopted_canonical_node committed_at;
  }

  abbrev pub canonical_repository : CanonicalNodeLeaseRepository Store
  canonical_repository = record {
    leases = lease_repository;
    read_canonical_node_lease = read_canonical_node_lease;
    read_node_refs = read_node_refs;
    reserve_canonical_upload = reserve_canonical_upload;
    put_canonical_object = put_canonical_object bucket;
    commit_uploaded_canonical_node = commit_uploaded_canonical_node committed_at;
  }

  abbrev pub direct_repository : CanonicalDirectUploadRepository Store
  direct_repository = record {
    leases = lease_repository;
    read_canonical_upload_session = read_canonical_upload_session;
    reserve_canonical_upload_session = reserve_canonical_upload_session;
    delete_canonical_upload_session = delete_canonical_upload_session;
  }

  abbrev pub upload_repository : LeaseDrivenNodeUploadRepository Store
  upload_repository = record {
    canonical = canonical_repository;
    count_lease_driven_uploads = count_lease_driven_uploads;
    read_canonical_bytes = read_canonical_bytes;
    read_lease_driven_upload = read_lease_driven_upload;
    replace_lease_driven_upload = replace_lease_driven_upload;
    stage_lease_driven_upload_validation = stage_lease_driven_upload_validation;
    read_temporary_upload_object = read_temporary_upload_object;
    read_temporary_upload_bytes = read_temporary_upload_bytes;
    delete_temporary_upload_object = delete_temporary_upload_object;
    delete_lease_driven_upload = delete_lease_driven_upload;
    put_verified_canonical_bytes = put_verified_canonical_bytes bucket;
  }
